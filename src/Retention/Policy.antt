-- ===== src/Retention/Policy.antt =====
-- The retention window of `rust/src/retention.rs`.
use trail_stash.Base.{ℕ, ◌+◌, ◌*◌, ◌<◌, ◌≤◌, ◌≡◌, ◌↔◌, true, arith, min, u64_max}
use trail_stash.Retention.{RetentionPolicy, ms_per_hour, from_hours, cutoff, is_expired}

-- Under a window of some hours an entry is expired exactly when its age exceeds the window, which
-- is cut to the largest 64-bit number; an entry at the boundary, or from the future, is kept.
pub is_expired-from_hours :
    (hours ts now : ℕ)
    → (is_expired (from_hours hours) ts now ≡ true) ↔ (ts + min (hours * ms_per_hour) u64_max < now)
unfolding is_expired from_hours cutoff
is_expired-from_hours hours ts now = (λ h. ground arith, λ h. ground arith)

-- What is expired stays expired as the clock goes on, and older entries are expired too.
pub is_expired_mono :
    (p : RetentionPolicy) (ts ts' now now' : ℕ)
    → ts' ≤ ts
    → now ≤ now'
    → is_expired p ts now ≡ true
    → is_expired p ts' now' ≡ true
unfolding is_expired cutoff
is_expired_mono p ts ts' now now' h k e = ground arith
