-- ===== src/Text/Hex.antt =====
-- Hexadecimal digits: `{b:02x}` of the standard library, and `char::to_digit(16)`.
use Prim.Native.Nat.{bit_or}
use trail_stash.Bits.{bit_or-nibbles}
use trail_stash.Base.{
  ℕ, ◌+◌, ◌-◌, ◌*◌, ◌/◌, ◌%◌, ◌<◌, ◌≡◌, refl, ◌&&◌, Option, none, some, List, [], ◌∷◌, arith, Bytes,
  length, ltb, leb, if◌then◌else◌, All, IsByte,
}

unfoldable pub lower_digit : ℕ → ℕ
lower_digit d = if ltb d 10 then b'0' + d else b'a' + (d - 10)

-- `format!("{b:02x}")` for each byte, one after the other.
unfoldable pub hex_encode : Bytes → List ℕ
hex_encode [] = []
hex_encode (b ∷ bs) = lower_digit (b / 16) ∷ lower_digit (b % 16) ∷ hex_encode bs

-- `(b as char).to_digit(16)`.
unfoldable pub to_digit : ℕ → Option ℕ
to_digit c =
    if leb b'0' c && leb c b'9'
    then some (c - b'0')
    else if leb b'a' c && leb c b'f'
    then some (c - b'a' + 10)
    else if leb b'A' c && leb c b'F'
    then some (c - b'A' + 10)
    else none

-- `((hi << 4) | lo) as u8`.
unfoldable pub join_nibbles : ℕ → ℕ → ℕ
join_nibbles hi lo = bit_or (hi * 16) lo % 256

pub join_nibbles_lem : (hi lo : ℕ) → hi < 16 → lo < 16 → join_nibbles hi lo ≡ hi * 16 + lo
unfolding join_nibbles
join_nibbles_lem hi lo p q = omega (arith, bit_or-nibbles hi lo p q)

pub join_nibbles_byte : (b : ℕ) → IsByte b → join_nibbles (b / 16) (b % 16) ≡ b
join_nibbles_byte b h = omega (arith, join_nibbles_lem (b / 16) (b % 16))

pub to_digit-lower_digit : (d : ℕ) → d < 16 → to_digit (lower_digit d) ≡ some d
unfolding to_digit lower_digit
to_digit-lower_digit d h = ground arith

pub lower_digit_ascii : (d : ℕ) → d < 16 → lower_digit d < 128
unfolding lower_digit
lower_digit_ascii d h = ground arith

pub hex_encode_ascii : (bs : Bytes) → All IsByte bs → All (λ c. c < 128) (hex_encode bs)
unfolding hex_encode
hex_encode_ascii [] h = tt
hex_encode_ascii (b ∷ bs) h = (
  lower_digit_ascii (b / 16) (omega arith),
  (lower_digit_ascii (b % 16) (omega arith), hex_encode_ascii bs h.1),
)

pub length-hex_encode : (bs : Bytes) → length (hex_encode bs) ≡ 2 * length bs
unfolding hex_encode
length-hex_encode [] = refl
length-hex_encode (b ∷ bs) = omega (arith, length-hex_encode bs)

-- `(hi << 4) | lo` in `u8`.
unfoldable pub join_u8 : ℕ → ℕ → ℕ
join_u8 hi lo = bit_or (hi * 16 % 256) lo

pub join_u8_lem : (hi lo : ℕ) → hi < 16 → lo < 16 → join_u8 hi lo ≡ hi * 16 + lo
unfolding join_u8
join_u8_lem hi lo p q =
    let e : hi * 16 % 256 ≡ hi * 16 = omega arith in rw e (bit_or-nibbles hi lo p q)
