-- ===== src/Tests/Retention.antt =====
-- The theorems on `rust/src/retention.rs` and `rust/src/config.rs` at concrete inputs.
use trail_stash.Base.{
  ℕ, ◌^◌, ◌<◌, ◌≤◌, ◌≡◌, refl, true, false, Option, none, some, List, [], ◌∷◌, Bytes, map, arith,
}
use trail_stash.Base.{ℕ_discrete, bytes_discrete}
use mathlib.Core.List.{zip, zip_with}
use trail_stash.HashMap
use trail_stash.Text.{from_utf8}
use trail_stash.Text.Hex.{hex_encode, lower_digit, to_digit, join_nibbles}
use trail_stash.Text.Decimal.{pad_decimal, parse_uint, parse_digits}
use trail_stash.Retention.{latest_from, note_latest, is_outdated}
use trail_stash.Retention.Key.{position, hex_decode, hex_pairs}
use trail_stash.Retention.{
  RetentionPolicy, RetentionEntry, from_hours, cutoff, is_expired, release_decisions,
}
use trail_stash.Retention.Key.{FixKey, fix_key, ctl_key, decode_fix_key}
use trail_stash.Retention.Key.Laws.{decode_fix_key-fix_key, decode_fix_key-ctl_key}
use trail_stash.Retention.Policy.{is_expired-from_hours, is_expired_mono}
use trail_stash.Retention.Select.{
  decision, FixAt, is_superseded_at, release_decisions-decision, latest_not_superseded,
}
use trail_stash.Config.{from_env}
use trail_stash.Config.Bounds.{IsBounded, from_env-IsBounded}
use trail_stash.Text.{Text, text}

abbrev alice : Bytes
alice = 0xA1 ∷ 0x1C ∷ []

abbrev first_fix : FixKey
first_fix = record { author = alice; seq = 1 }

abbrev second_fix : FixKey
second_fix = record { author = alice; seq = 2 }

-- Two fixes of one author, a control entry, and the second fix once more.
abbrev trail : List RetentionEntry
trail =
    record { key = fix_key alice 1; written_ms = 1000 }
    ∷ record { key = fix_key alice 2; written_ms = 2000 }
    ∷ record { key = ctl_key alice; written_ms = 3000 }
    ∷ record { key = fix_key alice 2; written_ms = 3500 }
    ∷ []

abbrev an_hour : RetentionPolicy
an_hour = from_hours 1

decoded :
    (seq : ℕ)
    → seq < 2 ^ 64
    → decode_fix_key (fix_key alice seq) ≡ some (record { author = alice; seq = seq })
decoded seq fits = decode_fix_key-fix_key alice seq (omega arith) (λ e. cc) fits

first_at : FixAt trail 0 first_fix
first_at = record { entry = _; found = refl; decoded = decoded 1 (omega arith) }

second_at : FixAt trail 1 second_fix
second_at = record { entry = _; found = refl; decoded = decoded 2 (omega arith) }

release_decisions-decision_example :
    release_decisions trail an_hour 4000 ≡ map (decision trail an_hour 4000) trail
release_decisions-decision_example = release_decisions-decision trail an_hour 4000

latest_not_superseded_example :
    (j : ℕ) × (latest : FixKey) × FixAt trail j latest
    × (latest.author ≡ alice)
    × (1 ≤ latest.seq)
    × (is_superseded_at (release_decisions trail an_hour 4000) j ≡ false)
latest_not_superseded_example = latest_not_superseded trail an_hour 4000 0 first_fix first_at

again_at : FixAt trail 3 second_fix
again_at = record { entry = _; found = refl; decoded = decoded 2 (omega arith) }

kept_second :
    (is_superseded_at (release_decisions trail an_hour 4000) 1 ≡ false)
    × (is_superseded_at (release_decisions trail an_hour 4000) 3 ≡ false)
unfolding release_decisions decode_fix_key fix_key zip is_outdated position hex_encode lower_digit
    from_utf8 pad_decimal hex_decode hex_pairs to_digit parse_uint parse_digits HashMap.get
    latest_from ctl_key note_latest HashMap.insert zip_with ℕ_discrete bytes_discrete cutoff
    is_expired join_nibbles from_hours
kept_second = (refl, refl)

decode_fix_key-fix_key_example :
    decode_fix_key (fix_key alice 7) ≡ some (record { author = alice; seq = 7 })
decode_fix_key-fix_key_example =
    decode_fix_key-fix_key alice 7 (omega arith) (λ e. cc) (omega arith)

decode_fix_key-ctl_key_example : decode_fix_key (ctl_key alice) ≡ none
decode_fix_key-ctl_key_example = decode_fix_key-ctl_key alice

is_expired_mono_example : is_expired (from_hours 1) 4 5000000 ≡ true
is_expired_mono_example =
    is_expired_mono (from_hours 1) 5 4 4000000 5000000 (omega arith) (omega arith)
      ((is_expired-from_hours 1 5 4000000).1 (omega arith))

-- An environment that sets everything to a single blank.
abbrev blanks : Text → Option Text
blanks name = some (text " ")

from_env-IsBounded_example : IsBounded (from_env blanks)
from_env-IsBounded_example = from_env-IsBounded blanks
