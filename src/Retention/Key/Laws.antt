-- ===== src/Retention/Key/Laws.antt =====
-- What `decode_fix_key` of `rust/src/retention.rs` accepts, and what it reads.
use native.Mathlib.Numerals.{add-one}
use trail_stash.Base.{
  all, ℕ, ◌/◌, ◌%◌, ◌^◌, ◌<◌, ◌≡◌, ◌≢◌, refl, ◌∙◌, true, none, some, [], ◌∷◌, ◌++◌, Bytes, IsByte,
  All, length, take-length, drop-length, arith,
}
use trail_stash.Text.{from_utf8, from_utf8_ascii}
use trail_stash.Text.Hex.{
  hex_encode, lower_digit, to_digit, to_digit-lower_digit, join_nibbles_byte, hex_encode_ascii,
  length-hex_encode,
}
use trail_stash.Text.Decimal.{
  is_ascii_digit, parse_uint-digits, digits_ascii, pad_decimal, parse_uint,
  parse_digits-pad_decimal, length-pad_decimal, pad_decimal_digits,
}
use trail_stash.Retention.Key.{
  position, hex_pairs, hex_decode, decode_fix_key, fix_key, ctl_key, key_sep, seq_width,
}

position-append :
    (w : ℕ) (xs ys : Bytes) → All (λ b. b ≢ w) xs → position w (xs ++ w ∷ ys) ≡ some (length xs)
unfolding position
position-append w [] ys h = ground arith
position-append w (x ∷ xs) ys h = ground (arith, position-append w xs ys h.1)

lower_digit-ne-sep : (d : ℕ) → d < 16 → lower_digit d ≢ key_sep
unfolding lower_digit
lower_digit-ne-sep d h = ground arith

hex_encode-ne-sep : (bs : Bytes) → All IsByte bs → All (λ c. c ≢ key_sep) (hex_encode bs)
unfolding hex_encode
hex_encode-ne-sep [] h = tt
hex_encode-ne-sep (b ∷ bs) h = (
  lower_digit-ne-sep (b / 16) (omega arith),
  (lower_digit-ne-sep (b % 16) (omega arith), hex_encode-ne-sep bs h.1),
)

hex_encode-ne-nil : (b : ℕ) (bs : Bytes) → hex_encode (b ∷ bs) ≢ []
unfolding hex_encode
hex_encode-ne-nil b bs = λ e. cc

hex_pairs-hex_encode : (bs : Bytes) → All IsByte bs → hex_pairs (hex_encode bs) ≡ some bs
unfolding hex_pairs hex_encode
hex_pairs-hex_encode [] h = refl
hex_pairs-hex_encode (b ∷ bs) h = ground (
  arith,
  to_digit-lower_digit (b / 16),
  to_digit-lower_digit (b % 16),
  join_nibbles_byte b,
  hex_pairs-hex_encode bs h.1,
)

hex_decode-hex_encode : (bs : Bytes) → All IsByte bs → hex_decode (hex_encode bs) ≡ some bs
unfolding hex_decode
hex_decode-hex_encode bs h = ground (arith, length-hex_encode bs, hex_pairs-hex_encode bs h)

-- The decimal part of a key, read back.
parse_uint-pad_decimal :
    (n : ℕ) → n < 2 ^ 64 → parse_uint (2 ^ 64) (pad_decimal seq_width n) ≡ some n
parse_uint-pad_decimal n h =
    parse_uint-digits (2 ^ 64) (pad_decimal seq_width n) (pad_decimal_digits seq_width n)
      (omega (arith, length-pad_decimal seq_width n))
    ∙ parse_digits-pad_decimal (2 ^ 64) seq_width n (omega arith) h

-- A key in two parts that both decode.
decode_parts :
    (hex digits author : Bytes) (seq : ℕ)
    → All (λ b. b ≢ key_sep) hex
    → from_utf8 hex ≡ some hex
    → from_utf8 digits ≡ some digits
    → length digits ≡ seq_width
    → all is_ascii_digit digits ≡ true
    → hex_decode hex ≡ some author
    → parse_uint (2 ^ 64) digits ≡ some seq
    → hex ≢ []
    → author ≢ []
    → decode_fix_key (hex ++ key_sep ∷ digits) ≡ some (record { author = author; seq = seq })
unfolding decode_fix_key
decode_parts [] digits author seq h u v l d a n p q = absurd (p refl)
decode_parts hex digits [] seq h u v l d a n p q = absurd (q refl)
decode_parts (x ∷ hex) digits (y ∷ author) seq h u v l d a n p q =
    rw
      (
        position-append key_sep (x ∷ hex) digits h,
        add-one,
        take-length (x ∷ hex) (key_sep ∷ digits),
        drop-length (x ∷ hex) key_sep digits,
      )
      (ground arith)

-- A key that the app writes for a fix decodes to its author and its sequence number: every author
-- that is not empty, every 64-bit sequence number.
pub decode_fix_key-fix_key :
    (author : Bytes) (seq : ℕ)
    → All IsByte author
    → author ≢ []
    → seq < 2 ^ 64
    → decode_fix_key (fix_key author seq) ≡ some (record { author = author; seq = seq })
unfolding fix_key
decode_fix_key-fix_key [] seq bytes filled fits = absurd (filled refl)
decode_fix_key-fix_key (b ∷ bs) seq bytes filled fits =
    let author = b ∷ bs in
    let digits = pad_decimal seq_width seq in
    decode_parts (hex_encode author) digits author seq (hex_encode-ne-sep author bytes)
      (from_utf8_ascii (hex_encode author) (hex_encode_ascii author bytes))
      (from_utf8_ascii digits (digits_ascii digits (pad_decimal_digits seq_width seq)))
      (length-pad_decimal seq_width seq) (pad_decimal_digits seq_width seq)
      (hex_decode-hex_encode author bytes) (parse_uint-pad_decimal seq fits)
      (hex_encode-ne-nil b bs) filled

-- A control key is never read as a fix, whatever its author.
pub decode_fix_key-ctl_key : (author : Bytes) → decode_fix_key (ctl_key author) ≡ none
unfolding decode_fix_key ctl_key position from_utf8 hex_decode hex_pairs to_digit
decode_fix_key-ctl_key author = ground arith
