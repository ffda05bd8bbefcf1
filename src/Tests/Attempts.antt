-- ===== src/Tests/Attempts.antt =====
-- The ticks of the settle loop of `rust/src/node.rs` at concrete times.
use trail_stash.Base.{◌≡◌, refl, [], ◌∷◌, bytes_discrete, ℕ_discrete}
use trail_stash.HashMap
use trail_stash.Node.{backoff_ms, fetch_content}
use trail_stash.Node.Settle.{
  settle_once, settle_all, settle_entry, outstanding, obtain, settle_live, released, attempted,
  is_due,
}
use trail_stash.Node.Settle.Attempts.{attempt_times, Spaced, attempts-Spaced}
use trail_stash.Tests.Node.{store, photo, chasing, waiting, waiting-IsValid}

-- No peer has the photo: of the ticks after the first attempt those within a second pass, and of the
-- ticks after the second those within two seconds.
tried :
    attempt_times store photo (1000 ∷ 1500 ∷ 2000 ∷ 3000 ∷ 4000 ∷ []) chasing
    ≡ 1000 ∷ 2000 ∷ 4000 ∷ []
unfolding attempt_times settle_once HashMap.get bytes_discrete ℕ_discrete settle_all outstanding
    settle_entry settle_live obtain fetch_content HashMap.insert released is_due attempted
    backoff_ms
tried = refl

attempts-Spaced_example :
    Spaced (attempt_times store photo (1000 ∷ 1500 ∷ 2000 ∷ 3000 ∷ 4000 ∷ []) waiting)
attempts-Spaced_example =
    attempts-Spaced store photo (1000 ∷ 1500 ∷ 2000 ∷ 3000 ∷ 4000 ∷ []) waiting waiting-IsValid
