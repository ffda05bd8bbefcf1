-- ===== src/Auth.antt =====
-- `rust/src/auth.rs`: the check of the pre-shared key.
pub mod Compare
pub mod Bearer
use Prim.Native.Nat.{bit_or, bit_xor}
use trail_stash.Base.{
  ℕ, Bool, true, false, not, ◌&&◌, Option, none, some, List, [], ◌∷◌, map, Bytes, bytes_discrete,
  length, leb, ◌==◌, is_empty, if◌then◌else◌, ite, ◌>>=◌, ◌+◌,
}
use trail_stash.Text.{Text, text, as_bytes, trim}

pub data AuthOutcome : Type 0 where
  disabled allowed denied : AuthOutcome

abbrev pub is_allowed : AuthOutcome → Bool
is_allowed disabled = true
is_allowed allowed = true
is_allowed denied = false

-- The loop of `ct_eq` over the zipped bytes.
unfoldable pub diff_of : ℕ → Bytes → Bytes → ℕ
diff_of diff (x ∷ a) (y ∷ b) = diff_of (bit_or diff (bit_xor x y)) a b
diff_of diff [] b = diff
diff_of diff (x ∷ a) [] = diff

unfoldable pub ct_eq : Bytes → Bytes → Bool
ct_eq a b = if not (length a == length b) then false else diff_of 0 a b == 0

unfoldable pub authorize : Option Text → Option Text → AuthOutcome
authorize none provided = disabled
authorize (some psk) none = denied
authorize (some psk) (some tok) = if ct_eq (as_bytes psk) (as_bytes tok) then allowed else denied

-- `split_once(' ')`
unfoldable pub split_once : ℕ → Text → Option (Text × Text)
split_once sep [] = none
split_once sep (c ∷ s) =
    let later = (do (front, back) ← split_once sep s; some (c ∷ front, back)) in
    if c == sep then some ([], s) else later

unfoldable pub to_ascii_lowercase : ℕ → ℕ
to_ascii_lowercase c = if leb b'A' c && leb c b'Z' then c + 32 else c

unfoldable pub eq_ignore_ascii_case : Text → Text → Bool
eq_ignore_ascii_case s t =
    ite (bytes_discrete (map to_ascii_lowercase s) (map to_ascii_lowercase t)) true false

unfoldable pub bearer_token : Option Text → Option Text
bearer_token header_value = do
  value ← header_value
  (scheme, token) ← split_once b' ' (trim value)
  if eq_ignore_ascii_case scheme (text "bearer") && not (is_empty (trim token))
      then some (trim token)
      else none
