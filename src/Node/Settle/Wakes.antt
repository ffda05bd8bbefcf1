-- ===== src/Node/Settle/Wakes.antt =====
-- The wake-ups of the settle loop of `rust/src/node.rs`.
use native.Mathlib.Nat.{pow-suc}
use trail_stash.Base.{
  ◌*◌, zero, suc, ◌^◌, Option-cases, ◌≢◌, ℕ, ◌≤◌, Bool, not, ◌||◌, Option, some, [], ◌∷◌,
  bytes_discrete, if◌then◌else◌, ◌≡◌, inl, inr, refl, arith, is_some_and, min,
}
use trail_stash.Content.{ContentHash}
use trail_stash.HashMap
use trail_stash.HashMap.{HashMap, get-insert}
use trail_stash.Iroh.{Iroh}
use trail_stash.Node.{TrackedEntry, StashNode, backoff_ms}
use trail_stash.Node.Settle.{released, attempted, is_due, settle_live}

pub pow2_mono : (j k : ℕ) → j ≤ k → 2 ^ j ≤ 2 ^ k
pow2_mono j zero h = let e : j ≡ 0 = omega arith in rw e (omega arith)
pow2_mono zero (suc k) h = omega (arith, pow-suc 2 k, pow2_mono 0 k (omega arith))
pow2_mono (suc j) (suc k) h = omega (arith, pow-suc 2 j, pow-suc 2 k, pow2_mono j k (omega arith))

-- The delay after so many failed attempts: it doubles from half a second, up to a minute.
abbrev pub delay : ℕ → ℕ
delay n = min (500 * 2 ^ min n 7) 60000

pub backoff_ms_lem : (n : ℕ) → backoff_ms n ≡ delay n
unfolding backoff_ms
backoff_ms_lem n = omega arith

-- The delay before the next attempt is at least half a second and at most a minute, and does not
-- shrink as the failed attempts grow.
pub backoff_ms_bounds :
    (a b : ℕ)
    → (500 ≤ backoff_ms a) × (backoff_ms a ≤ 60000) × (a ≤ b → backoff_ms a ≤ backoff_ms b)
unfolding backoff_ms
backoff_ms_bounds a b = (
  omega (arith, pow2_mono 0 (min a 7) (omega arith)),
  omega arith,
  λ h. omega (arith, pow2_mono (min a 7) (min b 7) (omega arith)),
)

pub is_due-attempted :
    (now : ℕ) (present : Bool) (entry live : TrackedEntry)
    → is_due now present (attempted now present entry live) ≡ is_due now present live
unfolding is_due attempted
is_due-attempted now present entry live = ground arith

pub released_lem :
    (now : ℕ) (present : Bool) (entry live : TrackedEntry)
    → ((released now present entry live).woken ≡ (live.woken || is_due now present live))
      × ((released now present entry live).content_present ≡ (live.content_present || present))
unfolding released is_due attempted
released_lem now present entry live = (ground arith, ground arith)

module _ (w : Iroh) (now : ℕ) (hash : ContentHash) (entry : TrackedEntry) (present : Bool)
    (node : StashNode w) where
  abbrev after : Option TrackedEntry
  after = HashMap.get bytes_discrete hash (settle_live w now hash entry present node).0.tracked

  -- A round for a tracked hash releases its entry to be woken exactly if the entry is due, and flags the
  -- release as degraded exactly if the bytes are missing; afterwards the entry counts as woken if it did
  -- or was due, and as present if it did or its bytes are there.
  pub settle_live_wakes :
      (live : TrackedEntry)
      → HashMap.get bytes_discrete hash node.tracked ≡ some live
      → ((settle_live w now hash entry present node).1 ≡ (
          if is_due now present live
          then record { hash = hash; entry = entry; degraded = not present } ∷ []
          else []))
        × (is_some_and (λ e. e.woken) after ≡ (live.woken || is_due now present live))
        × (is_some_and (λ e. e.content_present) after ≡ (live.content_present || present))
  unfolding settle_live is_due attempted released
  settle_live_wakes live e =
      let same =
        get-insert bytes_discrete hash hash (released now present entry live) node.tracked in
      (
        rw (e, settle_live) (ground (arith, is_due-attempted now present entry live)),
        ground (arith, same, released_lem now present entry live),
        ground (arith, same, released_lem now present entry live),
      )

  -- No other tracked entry changes.
  pub settle_live_others :
      (other : ContentHash)
      → other ≢ hash
      → HashMap.get bytes_discrete other (settle_live w now hash entry present node).0.tracked
        ≡ HashMap.get bytes_discrete other node.tracked
  unfolding settle_live
  settle_live_others other ne = elim (Option-cases (HashMap.get bytes_discrete hash node.tracked)) [
    | inl e ↦ rw (e, settle_live) refl
    | inr (live, e) ↦
        rw (e, settle_live)
          (ground (
            arith,
            get-insert bytes_discrete hash other (released now present entry live) node.tracked,
          ))
  ]
