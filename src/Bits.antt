-- ===== src/Bits.antt =====
-- Laws of the bitwise operations on bytes and nibbles, by evaluation over all pairs.
use Prim.Native.Nat.{bit_or, bit_xor}
use trail_stash.Base.{
  ℕ, zero, suc, ◌+◌, ◌*◌, ◌<◌, ◌≡◌, refl, Bool, true, ◌&&◌, not, arith, ltb, ◌==◌, ==_iff,
  if◌then◌else◌,
}

-- A test on pairs of numbers, tried on every pair of a left and a right number below the bounds.
row_passes : (ℕ → ℕ → Bool) → ℕ → ℕ → Bool
row_passes test left zero = true
row_passes test left (suc width) = row_passes test left width && test left width

table_passes : (ℕ → ℕ → Bool) → ℕ → ℕ → Bool
unfolding row_passes
table_passes test zero width = true
table_passes test (suc height) width =
    table_passes test height width && row_passes test height width

row_passes_lem :
    (test : ℕ → ℕ → Bool) (left width right : ℕ)
    → right < width
    → row_passes test left width ≡ true
    → test left right ≡ true
unfolding row_passes
row_passes_lem test left zero right small e = absurd (omega arith)
row_passes_lem test left (suc width) right small e =
    ground (arith, row_passes_lem test left width right)

table_passes_lem :
    (test : ℕ → ℕ → Bool) (height width left right : ℕ)
    → left < height
    → right < width
    → table_passes test height width ≡ true
    → test left right ≡ true
unfolding table_passes
table_passes_lem test zero width left right low small e = absurd (omega arith)
table_passes_lem test (suc height) width left right low small e = ground (
  arith,
  table_passes_lem test height width left right,
  row_passes_lem test left width right small,
)

nibble_table : table_passes (λ h l. bit_or (h * 16) l == h * 16 + l) 16 16 ≡ true
unfolding table_passes row_passes
nibble_table = refl

-- `(hi << 4) | lo` on two hexadecimal digits.
pub bit_or-nibbles : (h l : ℕ) → h < 16 → l < 16 → bit_or (h * 16) l ≡ h * 16 + l
bit_or-nibbles h l p q = (==_iff _ _).0 (table_passes_lem _ 16 16 h l p q nibble_table)

xor_check : ℕ → ℕ → Bool
xor_check x y = ltb (bit_xor x y) 256 && (if bit_xor x y == 0 then x == y else not (x == y))

xor_table : table_passes xor_check 256 256 ≡ true
unfolding table_passes row_passes xor_check
xor_table = refl

or_check : ℕ → ℕ → Bool
or_check x y =
    ltb (bit_or x y) 256 && (if bit_or x y == 0 then (x == 0 && y == 0) else not (x == 0 && y == 0))

or_table : table_passes or_check 256 256 ≡ true
unfolding table_passes row_passes or_check
or_table = refl

bit_xor_read :
    (x y : ℕ)
    → xor_check x y ≡ true
    → (bit_xor x y < 256) × (bit_xor x y ≡ 0 → x ≡ y) × (x ≡ y → bit_xor x y ≡ 0)
unfolding xor_check
bit_xor_read x y h = (ground arith, λ e. ground arith, λ e. ground arith)

-- `x ^ y` is a byte, and 0 exactly when the two bytes are one.
pub bit_xor-byte :
    (x y : ℕ)
    → x < 256
    → y < 256
    → (bit_xor x y < 256) × (bit_xor x y ≡ 0 → x ≡ y) × (x ≡ y → bit_xor x y ≡ 0)
bit_xor-byte x y p q = bit_xor_read x y (table_passes_lem xor_check 256 256 x y p q xor_table)

bit_or_read :
    (x y : ℕ)
    → or_check x y ≡ true
    → (bit_or x y < 256) × (bit_or x y ≡ 0 → (x ≡ 0) × (y ≡ 0)) × (x ≡ 0 → y ≡ 0 → bit_or x y ≡ 0)
unfolding or_check
bit_or_read x y h = (ground arith, λ e. ground arith, λ e f. ground arith)

-- `x | y` is a byte, and 0 exactly when both bytes are.
pub bit_or-byte :
    (x y : ℕ)
    → x < 256
    → y < 256
    → (bit_or x y < 256) × (bit_or x y ≡ 0 → (x ≡ 0) × (y ≡ 0)) × (x ≡ 0 → y ≡ 0 → bit_or x y ≡ 0)
bit_or-byte x y p q = bit_or_read x y (table_passes_lem or_check 256 256 x y p q or_table)
