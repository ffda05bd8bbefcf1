-- ===== src/Node/Watchers/Adds.antt =====
-- Which steps of the node of `rust/src/node.rs` add a reference to the content index.
use trail_stash.Base.{
  ℕ, Bool, true, false, ◌≡◌, sym, ap, ◌∙◌, ◌≢◌, Option, none, some, List, [], ◌∷◌, bytes_discrete,
  arith, inl, inr, Bool-cases, Option-cases,
}
use trail_stash.Content.{NamespaceId, ContentHash, ContentIndex, is_tracked_for, want, mark_present}
use trail_stash.Content.Laws.{want_effect, mark_present_effect}
use trail_stash.HashMap
use trail_stash.HashSet
use trail_stash.Iroh.{Iroh, DocEntry, EndpointId}
use trail_stash.Node.{StashNode, TrackedEntry, fetch_content}
use trail_stash.Node.Linked.{IsValid, forget_all-IsValid}
use trail_stash.Node.Prune.{forget_all, prune_namespace, prune_all, prune_once}
use trail_stash.Node.Receive.{receive, watch, handle_event, insert_remote, LiveEvent, insert, other}
use trail_stash.Node.Release.{is_tracked_for-forget_all}
use trail_stash.Node.Run.{Step, put_content-ledgers, register-ledgers, sync_now-ledgers}
use trail_stash.Node.Settle.{
  outstanding, obtain, settle_live, settle_entry, settle_all, settle_once,
}
use trail_stash.Node.Register.{unsubscribe}
use trail_stash.Node.Watchers.{is_heard}
use trail_stash.Result.{Result-cases}

module _ (w : Iroh) (ns : NamespaceId) (h : ContentHash) where
  -- The one index has the reference only if the other does.
  abbrev pub Within : ContentIndex → ContentIndex → Type 0
  Within after before = is_tracked_for ns h after ≡ true → is_tracked_for ns h before ≡ true

  mark_present-Within :
      (hash : ContentHash) (index : ContentIndex) → Within (mark_present hash index) index
  mark_present-Within hash index e = sym (mark_present_effect hash index ns h).0 ∙ e

  obtain-content :
      (now : ℕ) (hash : ContentHash) (entry : TrackedEntry) (node : StashNode w)
      → (obtain w now hash entry node).0.content ≡ node.content
  unfolding obtain fetch_content
  obtain-content now hash entry node = ground arith

  settle_live-Within :
      (now : ℕ) (hash : ContentHash) (entry : TrackedEntry) (present : Bool) (node : StashNode w)
      → Within (settle_live w now hash entry present node).0.content node.content
  unfolding settle_live
  settle_live-Within now hash entry present node =
      elim (Option-cases (HashMap.get bytes_discrete hash node.tracked)) [
        | inl e ↦ rw (e, settle_live) (λ f. f)
        | inr (live, e) ↦ elim (Bool-cases present) [
          | inl g ↦ rw (e, settle_live, g) (mark_present-Within hash node.content)
          | inr g ↦ rw (e, settle_live, g) (λ f. f)
        ]
      ]

  settle_all-Within :
      (now : ℕ) (list : List (ContentHash × TrackedEntry)) (node : StashNode w)
      → Within (settle_all w now list node).0.content node.content
  unfolding settle_all settle_entry
  settle_all-Within now [] node e = e
  settle_all-Within now ((hash, entry) ∷ rest) node e =
      let (node', present) = obtain w now hash entry node in
      ap (is_tracked_for ns h) (sym (obtain-content now hash entry node))
      ∙ settle_live-Within now hash entry present node'
          (settle_all-Within now rest (settle_live w now hash entry present node').0 e)

  forget_all-Within :
      (k : NamespaceId) (hashes : List ContentHash) (node : StashNode w)
      → IsValid w node
      → Within (forget_all w k hashes node).0.content node.content
  forget_all-Within k hashes node v e =
      ground (arith, e, is_tracked_for-forget_all w k hashes node ns h v)

  prune_all-Within :
      (now : ℕ) (namespaces : List NamespaceId) (node : StashNode w)
      → IsValid w node
      → Within (prune_all w now namespaces node).0.content node.content
  unfolding prune_all prune_namespace
  prune_all-Within now [] node v = λ e. e
  prune_all-Within now (k ∷ namespaces) node v =
      elim (Bool-cases (HashSet.contains bytes_discrete k node.handles)) [
        | inr closed ↦ rw (prune_all, closed) (prune_all-Within now namespaces node v)
        | inl opened ↦ elim (Result-cases (w.get_many node.docs k)) [
          | inr (msg, f) ↦ rw (prune_all, opened, f) (λ e. e)
          | inl (entries, f) ↦
              rw (prune_all, opened, f)
                (λ e. forget_all-Within k _ node v (
                  prune_all-Within now namespaces (prune_namespace w now k entries node).0
                    (forget_all-IsValid w k _ node v) e))
        ]
      ]

  -- No step but that of a watcher adds a reference.
  pub Step-Within :
      {s t : StashNode w} (st : Step w s t)
      → is_heard w st ≡ false
      → IsValid w s
      → Within t.content s.content
  unfolding settle_once prune_once unsubscribe
  Step-Within (Step.received ns' entry from now) b v = absurd (ground (arith, b))
  Step-Within (Step.watched ns' events) b v = absurd (ground (arith, b))
  Step-Within {s} (Step.settled now) b v = settle_all-Within now (outstanding s.tracked) s
  Step-Within {s} (Step.pruned now) b v = prune_all-Within now _ s v
  Step-Within {s} (Step.put ns' hash bytes) b v = elim (put_content-ledgers w ns' hash bytes s).0 [
    | inl e ↦ λ f. ap (is_tracked_for ns h) (sym e) ∙ f
    | inr e ↦ λ f. mark_present-Within hash s.content (ap (is_tracked_for ns h) (sym e) ∙ f)
  ]
  Step-Within {s} (Step.registered ticket sub) b v =
      λ e. ap (is_tracked_for ns h) (sym (register-ledgers w ticket sub s).0) ∙ e
  Step-Within (Step.unsubscribed ns' sub) b v = λ e. e
  Step-Within {s} (Step.synced ns' peers) b v =
      λ e. ap (is_tracked_for ns h) (sym (sync_now-ledgers w ns' peers s).0) ∙ e
  Step-Within (Step.outside docs blobs) b v = λ e. e

  receive-Within :
      (k : NamespaceId) (entry : DocEntry) (from : EndpointId) (now : ℕ) (node : StashNode w)
      → ns ≢ k
      → Within (receive w k entry from now node).0.content node.content
  unfolding receive
  receive-Within k entry from now node ne e =
      let hash = entry.content_hash in
      ground (
        arith,
        e,
        ne,
        (want_effect k hash node.content ns h).0,
        (mark_present_effect hash (want k hash node.content) ns h).0,
      )

  -- The events of another namespace add no reference of this one.
  pub watch-Within :
      (k : NamespaceId) (events : List (Option LiveEvent)) (node : StashNode w)
      → ns ≢ k
      → Within (watch w k events node).0.content node.content
  unfolding watch handle_event insert_remote
  watch-Within k [] node ne e = e
  watch-Within k (none ∷ events) node ne e = e
  watch-Within k (some (insert entry from now) ∷ events) node ne e =
      receive-Within k entry from now node ne
        (watch-Within k events (receive w k entry from now node).0 ne e)
  watch-Within k (some other ∷ events) node ne e = watch-Within k events node ne e
