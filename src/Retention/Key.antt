-- ===== src/Retention/Key.antt =====
-- Location-fix keys of `rust/src/retention.rs`: `hex(author)/{seq:020}`.
pub mod Laws
use trail_stash.Base.{
  ℕ, zero, suc, ◌+◌, ◌*◌, ◌^◌, ◌%◌, Bool, ◌||◌, not, Option, none, some, List, [], ◌∷◌, ◌++◌, Bytes,
  length, take, drop, all, is_empty, ◌==◌, if◌then◌else◌, ◌>>=◌,
}
use trail_stash.Text.{from_utf8}
use trail_stash.Text.Hex.{hex_encode, to_digit, join_nibbles}
use trail_stash.Text.Decimal.{is_ascii_digit, pad_decimal, parse_uint}

abbrev pub key_sep : ℕ
key_sep = b'/'

abbrev pub seq_width : ℕ
seq_width = 20

-- `CTL_TAG`, the bytes of "ctl".
abbrev pub ctl_tag : Bytes
ctl_tag = b'c' ∷ b't' ∷ b'l' ∷ []

pub record FixKey : Type 0 where
  pub author : Bytes
  pub seq : ℕ

-- `iter().position(|&b| b == wanted)`.
unfoldable pub position : ℕ → Bytes → Option ℕ
position wanted [] = none
position wanted (b ∷ bs) =
    let later = (do i ← position wanted bs; some (suc i)) in if b == wanted then some 0 else later

-- The loop of `hex_decode`, two bytes a round.
unfoldable pub hex_pairs : Bytes → Option Bytes
hex_pairs [] = some []
hex_pairs (a ∷ []) = none
hex_pairs (a ∷ b ∷ rest) = do
  hi ← to_digit a
  lo ← to_digit b
  out ← hex_pairs rest
  some (join_nibbles hi lo ∷ out)

unfoldable pub hex_decode : Bytes → Option Bytes
hex_decode s = if not (length s % 2 == 0) then none else hex_pairs s

unfoldable pub decode_fix_key : Bytes → Option FixKey
decode_fix_key key = do
  pos ← position key_sep key
  author_hex ← from_utf8 (take pos key)
  let seq_bytes = drop (pos + 1) key
  if is_empty author_hex
        || not (length seq_bytes == seq_width)
        || not (all is_ascii_digit seq_bytes)
      then none
      else do
        author ← hex_decode author_hex
        if is_empty author then none else do
          digits ← from_utf8 seq_bytes
          seq ← parse_uint (2 ^ 64) digits
          some (record { author = author; seq = seq })

-- The writers' formats, as the tests of the module spell them.
unfoldable pub fix_key : Bytes → ℕ → Bytes
fix_key author seq = hex_encode author ++ key_sep ∷ pad_decimal seq_width seq

unfoldable pub ctl_key : Bytes → Bytes
ctl_key author = ctl_tag ++ key_sep ∷ hex_encode author
