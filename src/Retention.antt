-- ===== src/Retention.antt =====
-- `rust/src/retention.rs`: the policy, and which entries of one namespace may be released. Fix keys
-- are in the child `Key`.
pub mod Key
pub mod Policy
pub mod Latest
pub mod Select
use Prim.Native.Nat.{max}
use trail_stash.Base.{
  ℕ, ◌*◌, ◌+◌, ◌<◌, Bool, true, false, Option, none, some, List, [], ◌∷◌, map, Bytes,
  bytes_discrete, ltb, saturating_mul, saturating_sub, is_some_and, unwrap_or,
}
use trail_stash.HashMap
use trail_stash.HashMap.{HashMap}
use mathlib.Core.List.{zip}
use mathlib.Core.Option as CoreOption
use Key.{FixKey, decode_fix_key}

abbrev pub ms_per_hour : ℕ
ms_per_hour = 3600000

pub record RetentionPolicy : Type 0 where
  pub retention_ms : ℕ

unfoldable pub from_hours : ℕ → RetentionPolicy
from_hours hours = record { retention_ms = saturating_mul hours ms_per_hour }

unfoldable pub cutoff : RetentionPolicy → ℕ → ℕ
cutoff policy now_ms = saturating_sub now_ms policy.retention_ms

unfoldable pub is_expired : RetentionPolicy → ℕ → ℕ → Bool
is_expired policy entry_ts_ms now_ms = ltb entry_ts_ms (cutoff policy now_ms)

pub record RetentionEntry : Type 0 where
  pub key : Bytes
  pub written_ms : ℕ

pub data ReleaseReason : Type 0 where
  superseded expired superseded_and_expired : ReleaseReason

abbrev pub is_superseded : ReleaseReason → Bool
is_superseded superseded = true
is_superseded superseded_and_expired = true
is_superseded expired = false

abbrev pub is_expired_reason : ReleaseReason → Bool
is_expired_reason expired = true
is_expired_reason superseded_and_expired = true
is_expired_reason superseded = false

-- The value of `entry(author).and_modify(max).or_insert(seq)`.
abbrev pub raised : Option ℕ → ℕ → ℕ
raised none seq = seq
raised (some latest) seq = max latest seq

unfoldable pub note_latest : HashMap Bytes ℕ → FixKey → HashMap Bytes ℕ
note_latest m k =
    HashMap.insert bytes_discrete k.author (raised (HashMap.get bytes_discrete k.author m) k.seq) m

-- The loop over `parsed.iter().flatten()`.
unfoldable pub latest_from : HashMap Bytes ℕ → List (Option FixKey) → HashMap Bytes ℕ
latest_from m [] = m
latest_from m (none ∷ parsed) = latest_from m parsed
latest_from m (some k ∷ parsed) = latest_from (note_latest m k) parsed

abbrev pub reason_of : Bool → Bool → Option ReleaseReason
reason_of true true = some superseded_and_expired
reason_of true false = some superseded
reason_of false true = some expired
reason_of false false = none

unfoldable pub is_outdated : HashMap Bytes ℕ → Option FixKey → Bool
is_outdated latest_by_author = is_some_and (λ k.
    is_some_and (λ latest. ltb k.seq latest) (HashMap.get bytes_discrete k.author latest_by_author))

unfoldable pub release_decisions :
    List RetentionEntry → RetentionPolicy → ℕ → List (Option ReleaseReason)
release_decisions entries policy now_ms =
    let parsed = map (λ (e : RetentionEntry). decode_fix_key e.key) entries in
    let latest_by_author = latest_from [] parsed in
    map
      (λ (p : RetentionEntry × Option FixKey).
        reason_of (is_outdated latest_by_author p.1) (is_expired policy p.0.written_ms now_ms))
      (zip entries parsed)
