-- ===== src/Node/Settle/Spaced.antt =====
-- How often the settle loop of `rust/src/node.rs` tries to fetch the bytes of one entry.
use trail_stash.Base.{
  ℕ, suc, ◌+◌, ◌≤◌, ◌≡◌, ◌≢◌, refl, sym, ap, ◌∙◌, ◌⊎◌, inl, inr, Bool, true, false, not, ◌&&◌, none,
  some, List, [], ◌∷◌, bytes_discrete, arith, ◌-◌, min, leb, if◌then◌else◌, if_pos, if_neg,
  Bool-cases, ◌^◌,
}
use mathlib.Core.Option.{some-injective}
use trail_stash.Content.{ContentHash}
use trail_stash.HashMap
use trail_stash.HashMap.{HashMap, get-insert}
use trail_stash.HashMap.Distinct.{Distinct}
use trail_stash.Iroh.{Iroh}
use trail_stash.Node.{StashNode, TrackedEntry, backoff_ms}
use trail_stash.Node.Settle.{
  outstanding, obtain, attempted, released, settle_live, settle_entry, settle_all,
}
use trail_stash.Node.Settle.Once.{obtain-tracked}
use trail_stash.Node.Settle.Wakes.{released_lem, pow2_mono, settle_live_others}

pub outstanding-none :
    (h : ContentHash) (tracked : HashMap ContentHash TrackedEntry)
    → HashMap.get bytes_discrete h tracked ≡ none
    → HashMap.get bytes_discrete h (outstanding tracked) ≡ none
unfolding HashMap.get outstanding
outstanding-none h [] e = refl
outstanding-none h ((k, x) ∷ tracked) e = ground (arith, e, outstanding-none h tracked)

pub outstanding-Distinct :
    (tracked : HashMap ContentHash TrackedEntry)
    → Distinct bytes_discrete tracked
    → Distinct bytes_discrete (outstanding tracked)
unfolding outstanding
outstanding-Distinct [] d = tt
outstanding-Distinct ((k, x) ∷ tracked) d =
    ground (arith, outstanding-Distinct tracked d.1, outstanding-none k tracked d.0)

pub outstanding_present :
    (h : ContentHash) (entry : TrackedEntry) (tracked : HashMap ContentHash TrackedEntry)
    → Distinct bytes_discrete tracked
    → HashMap.get bytes_discrete h tracked ≡ some entry
    → entry.content_present ≡ true
    → HashMap.get bytes_discrete h (outstanding tracked) ≡ none
unfolding HashMap.get outstanding
outstanding_present h entry [] d e p = cc
outstanding_present h entry ((k, x) ∷ tracked) d e p =
    ground (arith, e, p, outstanding_present h entry tracked d.1, outstanding-none k tracked d.0)

backoff_from : (a b : ℕ) → min a 7 ≤ b → backoff_ms a ≤ backoff_ms b
unfolding backoff_ms
backoff_from a b h = omega (arith, pow2_mono (min a 7) (min b 7) (omega arith))

-- The entry has its bytes, or was tried this often and is not to be tried for so long after this time.
abbrev pub IsCalm : ℕ → ℕ → TrackedEntry → Type 0
IsCalm n t live =
    (live.content_present ≡ true)
    ⊎ ((t + backoff_ms n ≤ live.next_attempt_ms) × (min n 7 ≤ live.attempts))

released-fields :
    (now : ℕ) (there : Bool) (live : TrackedEntry)
    → let tries = not there && leb live.next_attempt_ms now in
      let attempts = min (live.attempts + 1) (2 ^ 32 - 1) in
      let after = released now there live live in
      (after.next_attempt_ms ≡ (if tries then now + backoff_ms attempts else live.next_attempt_ms))
      × (after.attempts ≡ (if tries then attempts else live.attempts))
unfolding released attempted
released-fields now there live = (ground arith, ground arith)

more_attempts :
    (n attempts : ℕ) → min n 7 ≤ attempts → min (suc n) 7 ≤ min (attempts + 1) (2 ^ 32 - 1)
more_attempts n attempts h = omega arith

pub attempt-IsCalm :
    (n now : ℕ) (there : Bool) (live : TrackedEntry)
    → leb live.next_attempt_ms now ≡ true
    → min n 7 ≤ live.attempts
    → IsCalm (suc n) now (released now there live live)
attempt-IsCalm n now there live time few = elim (Bool-cases there) [
  | inl e ↦ inl (ground (arith, e, (released_lem now there live live).1))
  | inr e ↦
      let attempts = min (live.attempts + 1) (2 ^ 32 - 1) in
      let (next, count) = released-fields now there live in
      let more = more_attempts n live.attempts few in
      let delay = backoff_from (suc n) attempts more in
      let next' : (released now there live live).next_attempt_ms ≡ now + backoff_ms attempts =
        ground (arith, e, time, next) in
      let count' : (released now there live live).attempts ≡ attempts =
        ground (arith, e, time, count) in
      inr (omega (arith, next', delay), omega (arith, count', more))
]

pub pass-IsCalm :
    (n t now : ℕ) (there : Bool) (live : TrackedEntry)
    → leb live.next_attempt_ms now ≡ false
    → IsCalm n t live
    → IsCalm n t (released now there live live)
pass-IsCalm n t now there live early (inl present) =
    inl (ground (arith, present, (released_lem now there live live).1))
pass-IsCalm n t now there live early (inr (late, few)) =
    let (next, count) = released-fields now there live in
    let next' : (released now there live live).next_attempt_ms ≡ live.next_attempt_ms =
      ground (arith, early, next) in
    let count' : (released now there live live).attempts ≡ live.attempts =
      ground (arith, early, count) in
    inr (omega (arith, next', late), omega (arith, count', few))

settle_live_here :
    (w : Iroh) (now : ℕ) (hash : ContentHash) (x live : TrackedEntry) (there : Bool)
    (node : StashNode w)
    → HashMap.get bytes_discrete hash node.tracked ≡ some live
    → HashMap.get bytes_discrete hash (settle_live w now hash x there node).0.tracked
      ≡ some (released now there x live)
unfolding settle_live
settle_live_here w now hash x live there node e =
    rw (e, settle_live)
      (ground (arith, get-insert bytes_discrete hash hash (released now there x live) node.tracked))

module _ (w : Iroh) (now : ℕ) (h : ContentHash) where
  pub settle_all_others :
      (list : List (ContentHash × TrackedEntry)) (node : StashNode w)
      → HashMap.get bytes_discrete h list ≡ none
      → HashMap.get bytes_discrete h (settle_all w now list node).0.tracked
        ≡ HashMap.get bytes_discrete h node.tracked
  unfolding settle_all settle_entry HashMap.get
  settle_all_others [] node e = refl
  settle_all_others ((hash, x) ∷ rest) node e =
      let (node', there) = obtain w now hash x node in
      let apart : h ≢ hash = λ p. absurd (ground (arith, e, p)) in
      settle_all_others rest (settle_live w now hash x there node').0 (ground (arith, e))
      ∙ settle_live_others w now hash x there node' h apart
      ∙ ap (HashMap.get bytes_discrete h) (obtain-tracked w now hash x node)

  pub settle_all_here :
      (entry live : TrackedEntry) (list : List (ContentHash × TrackedEntry)) (node : StashNode w)
      → Distinct bytes_discrete list
      → HashMap.get bytes_discrete h list ≡ some entry
      → HashMap.get bytes_discrete h node.tracked ≡ some live
      → (there : Bool) × (HashMap.get bytes_discrete h (settle_all w now list node).0.tracked
          ≡ some (released now there entry live))
  unfolding settle_all settle_entry HashMap.get
  settle_all_here entry live [] node d f e = absurd (ground (arith, f))
  settle_all_here entry live ((hash, x) ∷ rest) node d f e =
      let (node', there) = obtain w now hash x node in
      let tracked : HashMap.get bytes_discrete h node'.tracked ≡ some live =
        ap (HashMap.get bytes_discrete h) (obtain-tracked w now hash x node) ∙ e in
      elim (bytes_discrete h hash) [
        | yes p ↦
            let first : x ≡ entry =
              some-injective x entry (sym (if_pos (bytes_discrete h hash) p _ _) ∙ f) in
            let last = (settle_live w now hash x there node').0 in
            let here =
              settle_live_here w now hash x live there node'
                (ap (λ k. HashMap.get bytes_discrete k node'.tracked) (sym p) ∙ tracked) in
            (
              there,
              settle_all_others rest last (ap (λ k. HashMap.get bytes_discrete k rest) p ∙ d.0)
                  ∙ ap (λ k. HashMap.get bytes_discrete k last.tracked) p
                  ∙ here
                  ∙ ap (λ y. some (released now there y live)) first,
            )
        | no np ↦
            settle_all_here entry live rest (settle_live w now hash x there node').0 d.1
              (sym (if_neg (bytes_discrete h hash) np _ _) ∙ f)
              (settle_live_others w now hash x there node' h np ∙ tracked)
      ]
