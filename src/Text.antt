-- ===== src/Text.antt =====
-- Rust's `str` and `String` as the list of its characters (Unicode scalar values), with what the
-- source calls of the standard library: `as_bytes`, `len`, `trim`, `from_utf8`, `from_str` of the
-- unsigned integers, and the formats `{:02x}` and `{:0width$}`.
pub mod Hex
pub mod Decimal
pub mod Trim
pub mod Address
use Prim.Native.Char.{code}
use Prim.Native.String.{String}
use trail_stash.Base.{
  ap₂, ◌≢◌, sym, IsByte, ℕ, zero, suc, ◌+◌, ◌-◌, ◌*◌, ◌/◌, ◌%◌, ◌<◌, ◌≡◌, refl, Bool, true, false,
  ◌&&◌, ◌||◌, Option, none, some, List, [], ◌∷◌, ◌++◌, arith, Bytes, length, length-append, ltb,
  leb, ◌==◌, if◌then◌else◌, All, all,
}

abbrev pub Text : Type 0
Text = List ℕ

-- The characters of a literal.
abbrev pub text : String → Text
text String.[] = []
text (String.◌∷◌ c s) = code c ∷ text s

-- A Unicode scalar value is below 0x110000.
abbrev pub IsText : Text → Type 0
IsText = All (λ c. c < 0x110000)

-- The UTF-8 bytes of one character.
unfoldable pub encode_char : ℕ → Bytes
encode_char c =
    if ltb c 0x80
    then c ∷ []
    else if ltb c 0x800
    then (0xC0 + c / 64) ∷ (0x80 + c % 64) ∷ []
    else if ltb c 0x10000
    then (0xE0 + c / 4096) ∷ (0x80 + c / 64 % 64) ∷ (0x80 + c % 64) ∷ []
    else (0xF0 + c / 262144) ∷ (0x80 + c / 4096 % 64) ∷ (0x80 + c / 64 % 64) ∷ (0x80 + c % 64) ∷ []

unfoldable pub as_bytes : Text → Bytes
as_bytes [] = []
as_bytes (c ∷ s) = encode_char c ++ as_bytes s

-- `str::len` counts bytes.
abbrev pub len : Text → ℕ
len s = length (as_bytes s)

abbrev pub is_ascii : ℕ → Bool
is_ascii c = ltb c 128

abbrev pub IsAscii : Text → Type 0
IsAscii = All (λ c. c < 128)

pub as_bytes-IsByte : (s : Text) → IsText s → All IsByte (as_bytes s)
unfolding as_bytes encode_char
as_bytes-IsByte [] h = tt
as_bytes-IsByte (c ∷ s) h = ground (arith, as_bytes-IsByte s h.1)

-- A text whose bytes are all ASCII is its bytes.
pub as_bytes_ascii_inv : (s : Text) → IsAscii (as_bytes s) → as_bytes s ≡ s
unfolding as_bytes encode_char
as_bytes_ascii_inv [] h = refl
as_bytes_ascii_inv (c ∷ s) h = ground (arith, as_bytes_ascii_inv s)

pub as_bytes_ascii : (s : Text) → IsAscii s → as_bytes s ≡ s
unfolding as_bytes encode_char
as_bytes_ascii [] h = refl
as_bytes_ascii (c ∷ s) h = ground (arith, as_bytes_ascii s h.1)

encode_char_injective :
    (c d : ℕ) (s t : Bytes) → encode_char c ++ s ≡ encode_char d ++ t → (c ≡ d) × (s ≡ t)
unfolding encode_char
encode_char_injective c d s t h = ground arith

encode_char-ne-nil : (c : ℕ) (s : Bytes) → encode_char c ++ s ≢ []
unfolding encode_char
encode_char-ne-nil c s = λ h. ground arith

-- No two texts have the same bytes.
pub as_bytes_injective : (s t : Text) → as_bytes s ≡ as_bytes t → s ≡ t
unfolding as_bytes
as_bytes_injective [] [] h = refl
as_bytes_injective [] (d ∷ t) h = absurd (encode_char-ne-nil d (as_bytes t) (sym h))
as_bytes_injective (c ∷ s) [] h = absurd (encode_char-ne-nil c (as_bytes s) h)
as_bytes_injective (c ∷ s) (d ∷ t) h =
    let e = encode_char_injective c d (as_bytes s) (as_bytes t) h in
    ap₂ ◌∷◌ e.0 (as_bytes_injective s t e.1)

-- `char::is_whitespace`: the property White_Space of Unicode.
unfoldable pub is_whitespace : ℕ → Bool
is_whitespace c =
    (leb 0x9 c && leb c 0xD)
    || c == 0x20
    || c == 0x85
    || c == 0xA0
    || c == 0x1680
    || (leb 0x2000 c && leb c 0x200A)
    || c == 0x2028
    || c == 0x2029
    || c == 0x202F
    || c == 0x205F
    || c == 0x3000

unfoldable pub trim_start : Text → Text
trim_start [] = []
trim_start (c ∷ s) = let rest = trim_start s in if is_whitespace c then rest else c ∷ s

-- A character that only whitespace follows is dropped if it is whitespace too.
unfoldable pub trim_end : Text → Text
trim_end [] = []
trim_end (c ∷ s) = elim (trim_end s) [
  | [] ↦ if is_whitespace c then [] else c ∷ []
  | d ∷ r ↦ c ∷ d ∷ r
]

unfoldable pub trim : Text → Text
trim s = trim_end (trim_start s)

-- The automaton of UTF-8 validation: how many continuation bytes are due, and the range of the
-- next one.
lead_due : ℕ → ℕ
lead_due b = if ltb b 0x80 then 0 else if ltb b 0xE0 then 1 else if ltb b 0xF0 then 2 else 3

lead_low : ℕ → ℕ
lead_low b = if b == 0xE0 then 0xA0 else if b == 0xF0 then 0x90 else 0x80

lead_high : ℕ → ℕ
lead_high b = if b == 0xED then 0x9F else if b == 0xF4 then 0x8F else 0xBF

is_lead : ℕ → Bool
is_lead b = ltb b 0x80 || (leb 0xC2 b && leb b 0xF4)

utf8_from : ℕ → ℕ → ℕ → Bytes → Bool
utf8_from zero low high [] = true
utf8_from (suc due) low high [] = false
utf8_from zero low high (b ∷ bs) = is_lead b && utf8_from (lead_due b) (lead_low b) (lead_high b) bs
utf8_from (suc due) low high (b ∷ bs) = (leb low b && leb b high) && utf8_from due 0x80 0xBF bs

-- `std::str::from_utf8(bytes).ok()`. A `str` that is only read as bytes again stays bytes.
unfoldable pub from_utf8 : Bytes → Option Bytes
unfolding utf8_from is_lead lead_due lead_low lead_high
from_utf8 bytes = if utf8_from 0 0x80 0xBF bytes then some bytes else none

utf8_from_ascii : (low high : ℕ) (s : Bytes) → IsAscii s → utf8_from 0 low high s ≡ true
unfolding utf8_from is_lead lead_due
utf8_from_ascii low high [] h = refl
utf8_from_ascii low high (c ∷ s) h =
    ground (arith, utf8_from_ascii (lead_low c) (lead_high c) s h.1)

-- ASCII is valid UTF-8.
pub from_utf8_ascii : (s : Bytes) → IsAscii s → from_utf8 s ≡ some s
unfolding from_utf8
from_utf8_ascii s h = ground (arith, utf8_from_ascii 0x80 0xBF s h)
