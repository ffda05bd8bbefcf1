-- ===== src/Text/Decimal.antt =====
-- Decimal numbers: `{n:0width$}` of the standard library, and `from_str` of the unsigned integers.
use native.Mathlib.Nat.{pow-suc}
use trail_stash.Base.{
  All, ℕ, zero, suc, ◌+◌, ◌-◌, ◌*◌, ◌/◌, ◌%◌, ◌^◌, ◌<◌, ◌≡◌, ◌∙◌, refl, Bool, true, ◌&&◌, Option,
  none, some, List, [], ◌∷◌, ◌++◌, arith, Bytes, length, length-append, ltb, leb, ◌==◌,
  if◌then◌else◌, all,
}

-- `u8::is_ascii_digit`.
abbrev pub is_ascii_digit : ℕ → Bool
is_ascii_digit c = leb b'0' c && leb c b'9'

-- `format!("{n:0width$}")` of a number of at most `width` digits.
unfoldable pub pad_decimal : ℕ → ℕ → List ℕ
pad_decimal zero n = []
pad_decimal (suc width) n = pad_decimal width (n / 10) ++ (b'0' + n % 10) ∷ []

-- The digits of `from_str`, with its overflow check; `bound` is `2 ^ w` for a `w`-bit integer.
unfoldable pub parse_digits : ℕ → ℕ → Bytes → Option ℕ
parse_digits bound acc [] = some acc
parse_digits bound acc (c ∷ s) =
    let acc' = acc * 10 + (c - b'0') in
    let rest = parse_digits bound acc' s in
    if is_ascii_digit c then (if ltb acc' bound then rest else none) else none

-- `bytes.parse::<uN>().ok()`: a leading `+` is read over, unless it stands alone.
unfoldable pub parse_uint : ℕ → Bytes → Option ℕ
parse_uint bound [] = none
parse_uint bound (c ∷ []) = parse_digits bound 0 (c ∷ [])
parse_uint bound (c ∷ d ∷ s) = parse_digits bound 0 (if c == b'+' then d ∷ s else c ∷ d ∷ s)

pub length-pad_decimal : (width n : ℕ) → length (pad_decimal width n) ≡ width
unfolding pad_decimal
length-pad_decimal zero n = refl
length-pad_decimal (suc width) n = omega (
  arith,
  length-append (pad_decimal width (n / 10)) ((b'0' + n % 10) ∷ []),
  length-pad_decimal width (n / 10),
)

all-append {ℓ} :
    {A : Type ℓ} (p : A → Bool) (xs ys : List A)
    → all p xs ≡ true
    → all p ys ≡ true
    → all p (xs ++ ys) ≡ true
all-append p [] ys h k = k
all-append p (x ∷ xs) ys h k = ground (arith, all-append p xs ys)

pub pad_decimal_digits : (width n : ℕ) → all is_ascii_digit (pad_decimal width n) ≡ true
unfolding pad_decimal
pad_decimal_digits zero n = refl
pad_decimal_digits (suc width) n =
    all-append is_ascii_digit (pad_decimal width (n / 10)) ((b'0' + n % 10) ∷ [])
      (pad_decimal_digits width (n / 10)) (ground arith)

-- One more digit after a text that was read.
parse_digits-append :
    (bound acc a c : ℕ) (s : Bytes)
    → parse_digits bound acc s ≡ some a
    → parse_digits bound acc (s ++ c ∷ []) ≡ parse_digits bound a (c ∷ [])
unfolding parse_digits
parse_digits-append bound acc a c [] h = ground arith
parse_digits-append bound acc a c (d ∷ s) h =
    ground (arith, parse_digits-append bound (acc * 10 + (d - b'0')) a c s)

pub parse_digits-pad_decimal :
    (bound width n : ℕ)
    → n < 10 ^ width
    → n < bound
    → parse_digits bound 0 (pad_decimal width n) ≡ some n
unfolding pad_decimal parse_digits
parse_digits-pad_decimal bound zero n h b = ground arith
parse_digits-pad_decimal bound (suc width) n h b =
    let last = b'0' + n % 10 in
    let front =
      parse_digits-pad_decimal bound width (n / 10) (omega (arith, pow-suc 10 width))
        (omega arith) in
    parse_digits-append bound 0 (n / 10) last (pad_decimal width (n / 10)) front ∙ ground arith

-- Digits hold no `+`.
pub parse_uint-digits :
    (bound : ℕ) (s : Bytes)
    → all is_ascii_digit s ≡ true
    → 0 < length s
    → parse_uint bound s ≡ parse_digits bound 0 s
unfolding parse_uint
parse_uint-digits bound [] h p = absurd (omega arith)
parse_uint-digits bound (c ∷ []) h p = refl
parse_uint-digits bound (c ∷ d ∷ s) h p = ground arith

pub digits_ascii : (s : Bytes) → all is_ascii_digit s ≡ true → All (λ c. c < 128) s
digits_ascii [] h = tt
digits_ascii (c ∷ s) h = (ground arith, digits_ascii s (ground arith))

-- What is read fits the integer type.
pub parse_digits-lt :
    (bound acc : ℕ) (s : Bytes) (n : ℕ)
    → acc < bound
    → parse_digits bound acc s ≡ some n
    → n < bound
unfolding parse_digits
parse_digits-lt bound acc [] n h e = ground arith
parse_digits-lt bound acc (c ∷ s) n h e =
    ground (arith, parse_digits-lt bound (acc * 10 + (c - b'0')) s n)

pub parse_uint-lt :
    (bound : ℕ) (s : Bytes) (n : ℕ) → 0 < bound → parse_uint bound s ≡ some n → n < bound
unfolding parse_uint
parse_uint-lt bound [] n h e = cc
parse_uint-lt bound (c ∷ []) n h e = parse_digits-lt bound 0 (c ∷ []) n h e
parse_uint-lt bound (c ∷ d ∷ s) n h e =
    parse_digits-lt bound 0 (if c == b'+' then d ∷ s else c ∷ d ∷ s) n h e
