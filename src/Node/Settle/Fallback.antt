-- ===== src/Node/Settle/Fallback.antt =====
-- The fallback of the settle loop of `rust/src/node.rs`: what waited long enough is woken without its bytes.
use mathlib.Core.List.{Memᴰ}
use mathlib.Core.List.Memᴰ
use mathlib.Core.Path.{subst}
use trail_stash.Mls.{accept, EnvelopeRef}
use trail_stash.Node.Settle.Wakes.{settle_live_wakes, settle_live_others}
use trail_stash.Node.Settle.Once.{obtain-tracked}
use mathlib.Core.Option.{some-injective}
use trail_stash.Base.{
  ap₂, if_pos, if_neg, if◌then◌else◌, inr, inl, Option-cases, not, is_empty, refl, sym, ap, ◌∙◌,
  true, List, ℕ, Bool, false, ◌≡◌, some, [], ◌∷◌, bytes_discrete, arith,
}
use trail_stash.Content.{ContentHash}
use trail_stash.HashMap
use trail_stash.HashMap.{HashMap}
use trail_stash.Iroh.{Iroh}
use trail_stash.Node.{
  envelope_of, wake_targets, wake_for, accept, EnvelopeRef, fetch_content, Wake, TrackedEntry,
  StashNode,
}
use trail_stash.Node.Settle.{
  obtain, is_overdue, is_due, settle_once, settle_entry, Settled, wake_all, settle_tick, settle_all,
  outstanding, settle_live,
}

pub outstanding-get :
    (h : ContentHash) (entry : TrackedEntry) (tracked : HashMap ContentHash TrackedEntry)
    → HashMap.get bytes_discrete h tracked ≡ some entry
    → entry.content_present ≡ false
    → HashMap.get bytes_discrete h (outstanding tracked) ≡ some entry
unfolding HashMap.get outstanding
outstanding-get h entry [] e p = e
outstanding-get h entry ((k, x) ∷ tracked) e p = ground (arith, outstanding-get h entry tracked)

due :
    (now : ℕ) (present : Bool) (live : TrackedEntry)
    → live.woken ≡ false
    → is_overdue now live ≡ true
    → is_due now present live ≡ true
unfolding is_due
due now present live unwoken late = ground (arith, unwoken, late)

module _ (w : Iroh) where
  settle_live-keeps :
      (now : ℕ) (hash : ContentHash) (entry : TrackedEntry) (present : Bool) (node : StashNode w)
      → ((settle_live w now hash entry present node).0.registry ≡ node.registry)
        × ((settle_live w now hash entry present node).0.delivery ≡ node.delivery)
  unfolding settle_live
  settle_live-keeps now hash entry present node = ground arith

  obtain-keeps :
      (now : ℕ) (hash : ContentHash) (entry : TrackedEntry) (node : StashNode w)
      → ((obtain w now hash entry node).0.registry ≡ node.registry)
        × ((obtain w now hash entry node).0.delivery ≡ node.delivery)
  unfolding obtain fetch_content
  obtain-keeps now hash entry node = ground arith

  settle_all-keeps :
      (now : ℕ) (list : List (ContentHash × TrackedEntry)) (node : StashNode w)
      → ((settle_all w now list node).0.registry ≡ node.registry)
        × ((settle_all w now list node).0.delivery ≡ node.delivery)
  unfolding settle_all settle_entry
  settle_all-keeps now [] node = (refl, refl)
  settle_all-keeps now ((hash, entry) ∷ rest) node =
      let (node', present) = obtain w now hash entry node in
      let first = obtain-keeps now hash entry node in
      let head = settle_live-keeps now hash entry present node' in
      let tail = settle_all-keeps now rest (settle_live w now hash entry present node').0 in
      (tail.0 ∙ head.0 ∙ first.0, tail.1 ∙ head.1 ∙ first.1)

  -- What a round of the pass leaves, for one entry of the list.
  abbrev pub round : ℕ → ContentHash → TrackedEntry → StashNode w → StashNode w
  round now hash x node =
      (settle_live w now hash x (obtain w now hash x node).1 (obtain w now hash x node).0).0

  -- A pass over a list with a tracked entry releases the entry, where something that every round keeps makes it due
  -- whenever its turn comes.
  module _ (now : ℕ) (h : ContentHash) (entry live : TrackedEntry) (Kept : StashNode w → Type 0)
      (keeps : (hash : ContentHash) (x : TrackedEntry) (node : StashNode w)
        → Kept node
        → Kept (round now hash x node))
      (is_due_then : (node : StashNode w)
        → Kept node
        → is_due now (obtain w now h entry node).1 live ≡ true) where
    pub settle_all_releases :
        (list : List (ContentHash × TrackedEntry)) (node : StashNode w)
        → HashMap.get bytes_discrete h list ≡ some entry
        → HashMap.get bytes_discrete h node.tracked ≡ some live
        → Kept node
        → (degraded : Bool) × Memᴰ
            (record { hash = h; entry = entry; degraded = degraded })
            (settle_all w now list node).1
    unfolding settle_all settle_entry HashMap.get
    settle_all_releases [] node e f kept = absurd (ground (arith, e))
    settle_all_releases ((hash, x) ∷ rest) node e f kept =
        let (node', present) = obtain w now hash x node in
        let tracked : HashMap.get bytes_discrete h node'.tracked ≡ some live =
          ap (HashMap.get bytes_discrete h) (obtain-tracked w now hash x node) ∙ f in
        elim (bytes_discrete h hash) [
          | yes p ↦
              let first : x ≡ entry =
                some-injective x entry (sym (if_pos (bytes_discrete h hash) p _ _) ∙ e) in
              let time : is_due now present live ≡ true =
                ap₂ (λ k y. is_due now (obtain w now k y node).1 live) (sym p) first
                ∙ is_due_then node kept in
              let released : (settle_live w now hash x present node').1
                  ≡ record { hash = h; entry = entry; degraded = not present } ∷ [] =
                (settle_live_wakes w now hash x present node' live
                  (ap (λ k. HashMap.get bytes_discrete k node'.tracked) (sym p) ∙ tracked)).0
                ∙ ap
                    (λ b.
                      if b
                      then record { hash = hash; entry = x; degraded = not present } ∷ []
                      else [])
                    time
                ∙ ap₂ (λ k y. record { hash = k; entry = y; degraded = not present } ∷ []) (sym p)
                    first in
              (
                not present,
                Memᴰ.append_left _ (
                    subst (Memᴰ (record { hash = h; entry = entry; degraded = not present }))
                      (sym released) (Memᴰ.head refl)),
              )
          | no np ↦
              let tracked' : HashMap.get bytes_discrete h
                    (settle_live w now hash x present node').0.tracked
                  ≡ some live =
                settle_live_others w now hash x present node' h np ∙ tracked in
              let (degraded, m) =
                settle_all_releases rest (settle_live w now hash x present node').0
                  (sym (if_neg (bytes_discrete h hash) np _ _) ∙ e) tracked'
                  (keeps hash x node kept) in
              (degraded, Memᴰ.append_right (settle_live w now hash x present node').1 m)
        ]

  wake_all_member :
      (s : Settled) (settled : List Settled) (node : StashNode w) (call : Wake)
      → Memᴰ s settled
      → wake_for w s.hash s.entry s.degraded node ≡ some call
      → Memᴰ call (wake_all w settled node)
  unfolding wake_all
  wake_all_member s [] node call m e = elim m [ ]
  wake_all_member s (t ∷ settled) node call (Memᴰ.head p) e =
      let e' : wake_for w t.hash t.entry t.degraded node ≡ some call =
        subst (λ r. wake_for w r.hash r.entry r.degraded node ≡ some call) p e in
      rw (e', wake_all) (Memᴰ.head refl)
  wake_all_member s (t ∷ settled) node call (Memᴰ.tail m) e =
      let m' = wake_all_member s settled node call m e in
      elim (Option-cases (wake_for w t.hash t.entry t.degraded node)) [
        | inl f ↦ rw (f, wake_all) m'
        | inr (other, f) ↦ rw (f, wake_all) (Memᴰ.tail m')
      ]

  wake_for_admitted :
      (h : ContentHash) (entry : TrackedEntry) (degraded : Bool) (node : StashNode w)
      → ((envelope : EnvelopeRef) → node.delivery envelope ≡ accept)
      → is_empty (wake_targets entry.namespace node.registry) ≡ false
      → wake_for w h entry degraded node
        ≡ some (record {
          namespace = entry.namespace;
          targets = wake_targets entry.namespace node.registry;
        })
  unfolding wake_for
  wake_for_admitted h entry degraded node admits subscribed =
      rw (wake_for, admits (envelope_of w h entry degraded node), subscribed) refl

  -- An entry that a pass over what is outstanding releases is woken at the end of the tick.
  pub released_woken :
      (now : ℕ) (h : ContentHash) (entry : TrackedEntry) (node : StashNode w) (degraded : Bool)
      → Memᴰ
          (record { hash = h; entry = entry; degraded = degraded })
          (settle_all w now (outstanding node.tracked) node).1
      → ((envelope : EnvelopeRef) → node.delivery envelope ≡ accept)
      → is_empty (wake_targets entry.namespace node.registry) ≡ false
      → Memᴰ
          (record {
            namespace = entry.namespace;
            targets = wake_targets entry.namespace node.registry;
          })
          (settle_tick w now node).1
  unfolding settle_tick settle_once
  released_woken now h entry node degraded m admits subscribed =
      let (node', settled) = settle_all w now (outstanding node.tracked) node in
      let keeps = settle_all-keeps now (outstanding node.tracked) node in
      wake_all_member (record { hash = h; entry = entry; degraded = degraded }) settled node' _ m
        (subst
          (λ registry.
            wake_for w h entry degraded node'
            ≡ some (record {
              namespace = entry.namespace;
              targets = wake_targets entry.namespace registry;
            }))
          keeps.0
          (wake_for_admitted h entry degraded node'
            (λ envelope. ap (λ f. f envelope) keeps.1 ∙ admits envelope)
            (ap (λ registry. is_empty (wake_targets entry.namespace registry)) keeps.0
              ∙ subscribed)))

  -- No entry waits for ever: a tracked entry that was not woken, lacks its bytes and waited for the fallback
  -- time is woken by the next tick of the settle loop, whatever the store and the download answer, if the
  -- delivery service admits every envelope and its namespace has subscribers; all of them are targets.
  pub settle_tick_fallback :
      (now : ℕ) (h : ContentHash) (entry : TrackedEntry) (node : StashNode w)
      → HashMap.get bytes_discrete h node.tracked ≡ some entry
      → entry.content_present ≡ false
      → entry.woken ≡ false
      → is_overdue now entry ≡ true
      → ((envelope : EnvelopeRef) → node.delivery envelope ≡ accept)
      → is_empty (wake_targets entry.namespace node.registry) ≡ false
      → Memᴰ
          (record {
            namespace = entry.namespace;
            targets = wake_targets entry.namespace node.registry;
          })
          (settle_tick w now node).1
  settle_tick_fallback now h entry node e missing unwoken late admits subscribed =
      let (degraded, m) =
        settle_all_releases now h entry entry (λ _. Unit) (λ hash x node' k. tt)
          (λ node' k. due now (obtain w now h entry node').1 entry unwoken late)
          (outstanding node.tracked) node (outstanding-get h entry node.tracked e missing) e tt in
      released_woken now h entry node degraded m admits subscribed
