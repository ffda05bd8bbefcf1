-- ===== src/Node/Settle/Attempts.antt =====
-- The ticks of the settle loop of `rust/src/node.rs` at which it is time to fetch the bytes of one entry.
use trail_stash.Base.{
  ℕ, suc, ◌+◌, ◌≤◌, ◌≡◌, ◌∙◌, inl, inr, Bool, true, false, not, ◌&&◌, none, some, List, [], ◌∷◌,
  bytes_discrete, arith, leb, if◌then◌else◌, Bool-cases, Option-cases, is_some_and,
}
use trail_stash.Content.{ContentHash}
use trail_stash.HashMap
use trail_stash.Iroh.{Iroh}
use trail_stash.Node.{StashNode, TrackedEntry}
use trail_stash.Node.Linked.{IsValid}
use trail_stash.Node.Run.{Step, Step-IsValid}
use trail_stash.Node.Settle.{outstanding, released, settle_once}
use trail_stash.Node.Settle.Wakes.{delay, backoff_ms_lem}
use trail_stash.Node.Settle.Fallback.{outstanding-get}
use trail_stash.Node.Settle.Spaced.{
  IsCalm, attempt-IsCalm, pass-IsCalm, outstanding-Distinct, outstanding-none, outstanding_present,
  settle_all_others, settle_all_here,
}

-- Every time is later than the one before it by the delay after so many failed attempts.
abbrev pub Apart : ℕ → ℕ → List ℕ → Type 0
Apart n t [] = Unit
Apart n t (t' ∷ times) = (t + delay n ≤ t') × Apart (suc n) t' times

abbrev pub Spaced : List ℕ → Type 0
Spaced [] = Unit
Spaced (t ∷ times) = Apart 1 t times

module _ (w : Iroh) (h : ContentHash) where
  -- Whether it is time for the bytes of the entry: the loop asks for them in a tick only if this holds before it.
  abbrev pub is_attempt : ℕ → StashNode w → Bool
  is_attempt now node =
      is_some_and (λ e. not e.content_present && leb e.next_attempt_ms now)
        (HashMap.get bytes_discrete h node.tracked)

  unfoldable pub attempt_times : List ℕ → StashNode w → List ℕ
  attempt_times [] node = []
  attempt_times (now ∷ times) node =
      let rest = attempt_times times (settle_once w now node).0 in
      if is_attempt now node then now ∷ rest else rest

  tick-IsValid :
      (now : ℕ) (node : StashNode w) → IsValid w node → IsValid w (settle_once w now node).0
  tick-IsValid now node v = Step-IsValid w (Step.settled now) v

  tick_none :
      (now : ℕ) (node : StashNode w)
      → HashMap.get bytes_discrete h node.tracked ≡ none
      → HashMap.get bytes_discrete h (settle_once w now node).0.tracked ≡ none
  unfolding settle_once
  tick_none now node e =
      settle_all_others w now h (outstanding node.tracked) node (outstanding-none h node.tracked e)
      ∙ e

  tick_present :
      (now : ℕ) (live : TrackedEntry) (node : StashNode w)
      → IsValid w node
      → HashMap.get bytes_discrete h node.tracked ≡ some live
      → live.content_present ≡ true
      → HashMap.get bytes_discrete h (settle_once w now node).0.tracked ≡ some live
  unfolding settle_once
  tick_present now live node v e p =
      settle_all_others w now h (outstanding node.tracked) node
        (outstanding_present h live node.tracked v.distinct e p)
      ∙ e

  tick_missing :
      (now : ℕ) (live : TrackedEntry) (node : StashNode w)
      → IsValid w node
      → HashMap.get bytes_discrete h node.tracked ≡ some live
      → live.content_present ≡ false
      → (there : Bool) × (HashMap.get bytes_discrete h (settle_once w now node).0.tracked
          ≡ some (released now there live live))
  unfolding settle_once
  tick_missing now live node v e p =
      settle_all_here w now h live live (outstanding node.tracked) node
        (outstanding-Distinct node.tracked v.distinct) (outstanding-get h live node.tracked e p) e

  attempts-Apart :
      (n t : ℕ) (times : List ℕ) (live : TrackedEntry) (node : StashNode w)
      → IsValid w node
      → HashMap.get bytes_discrete h node.tracked ≡ some live
      → IsCalm n t live
      → Apart n t (attempt_times times node)
  unfolding attempt_times
  attempts-Apart n t [] live node v e calm = tt
  attempts-Apart n t (now ∷ times) live node v e calm =
      let after = (settle_once w now node).0 in
      let v' = tick-IsValid now node v in
      elim (Bool-cases live.content_present) [
        | inl p ↦
            rw (attempt_times, e, p)
              (attempts-Apart n t times live after v' (tick_present now live node v e p) calm)
        | inr p ↦
            let (there, e') = tick_missing now live node v e p in
            elim (Bool-cases (leb live.next_attempt_ms now)) [
              | inr early ↦
                  rw (attempt_times, e, p, early)
                    (attempts-Apart n t times (released now there live live) after v' e'
                      (pass-IsCalm n t now there live early calm))
              | inl time ↦ elim calm [
                | inl present ↦ absurd (ground (arith, p, present))
                | inr (late, few) ↦
                    rw (attempt_times, e, p, time)
                      (
                        ground (arith, late, time, backoff_ms_lem n),
                        attempts-Apart (suc n) now times (released now there live live) after v' e'
                            (attempt-IsCalm n now there live time few),
                      )
              ]
            ]
      ]

  -- The settle loop does not press a peer: over any ticks on a valid node, at whatever times, each tick at which it is
  -- time to ask for the bytes of an entry comes after the one before it by at least a delay, a second after the first and
  -- doubled with each up to a minute: half a second doubled as often as there were such ticks before it.
  pub attempts-Spaced :
      (times : List ℕ) (node : StashNode w) → IsValid w node → Spaced (attempt_times times node)
  unfolding attempt_times
  attempts-Spaced [] node v = tt
  attempts-Spaced (now ∷ times) node v =
      let after = (settle_once w now node).0 in
      let v' = tick-IsValid now node v in
      elim (Option-cases (HashMap.get bytes_discrete h node.tracked)) [
        | inl e ↦ rw (attempt_times, e) (attempts-Spaced times after v')
        | inr (live, e) ↦ elim (Bool-cases live.content_present) [
          | inl p ↦ rw (attempt_times, e, p) (attempts-Spaced times after v')
          | inr p ↦ elim (Bool-cases (leb live.next_attempt_ms now)) [
            | inr early ↦ rw (attempt_times, e, p, early) (attempts-Spaced times after v')
            | inl time ↦
                let (there, e') = tick_missing now live node v e p in
                rw (attempt_times, e, p, time)
                  (attempts-Apart 1 now times (released now there live live) after v' e'
                    (attempt-IsCalm 0 now there live time (omega arith)))
          ]
        ]
      ]
