-- ===== src/LogRedaction.antt =====
-- `rust/src/log_redaction.rs`: what is struck from a line of the log. A line is its UTF-8 bytes; both
-- ends of every range border on an ASCII byte, so no slice splits a character.
pub mod Cover
pub mod Sort
pub mod Scan
pub mod Struck
pub mod Stop
use trail_stash.Base.{
  ℕ, zero, suc, ◌+◌, ◌-◌, Bool, true, false, ◌&&◌, ◌||◌, List, [], ◌∷◌, ◌++◌, Bytes, length, take,
  drop, all, any, leb, ltb, ◌==◌, if◌then◌else◌, is_empty, max,
}
use trail_stash.Text.{text}
use trail_stash.Text.Address.{is_ip_addr, is_socket_addr_v4}
use trail_stash.Text.Decimal.{is_ascii_digit}

abbrev pub redacted : Bytes
redacted = text "[REDACTED]"

-- `u8::is_ascii_hexdigit`
abbrev pub is_ascii_hexdigit : ℕ → Bool
is_ascii_hexdigit c = is_ascii_digit c || (leb b'a' c && leb c b'f') || (leb b'A' c && leb c b'F')

-- `u8::is_ascii_alphanumeric`
abbrev pub is_ascii_alphanumeric : ℕ → Bool
is_ascii_alphanumeric c =
    is_ascii_digit c || (leb b'a' c && leb c b'z') || (leb b'A' c && leb c b'Z')

unfoldable pub is_network_char : ℕ → Bool
is_network_char byte = is_ascii_hexdigit byte || byte == b'.' || byte == b':'

unfoldable pub is_opaque_char : ℕ → Bool
is_opaque_char byte =
    is_ascii_alphanumeric byte
    || byte == b'_'
    || byte == b'-'
    || byte == b'+'
    || byte == b'/'
    || byte == b'='

-- The test of a candidate of the first loop. No candidate has a bracket, so none is a socket address of
-- version 6.
unfoldable pub is_address : Bytes → Bool
is_address candidate = is_ip_addr candidate || is_socket_addr_v4 candidate

-- The test of a candidate of the second loop.
unfoldable pub is_identity : Bytes → Bool
is_identity candidate =
    leb 32 (length candidate) && (any is_ascii_digit candidate || all is_ascii_hexdigit candidate)

abbrev pub Range : Type 0
Range = ℕ × ℕ

-- The end of an inner loop: the range of the candidate that ends here, if there is one and it passes.
unfoldable pub close_run : (Bytes → Bool) → ℕ → Bytes → List Range
close_run test end [] = []
close_run test end (b ∷ run) = if test (b ∷ run) then (end - length (b ∷ run), end) ∷ [] else []

-- One of the two outer loops, from position `i` on, with the candidate that is being read.
unfoldable pub scan : (ℕ → Bool) → (Bytes → Bool) → ℕ → Bytes → Bytes → List Range
scan is_char test i run [] = close_run test i run
scan is_char test i run (b ∷ bytes) = elim (is_char b) [
  | true ↦ scan is_char test (i + 1) (run ++ b ∷ []) bytes
  | false ↦ close_run test i run ++ scan is_char test (i + 1) [] bytes
]

unfoldable pub ranges_of : Bytes → List Range
ranges_of bytes =
    scan is_network_char is_address 0 [] bytes ++ scan is_opaque_char is_identity 0 [] bytes

-- The order of pairs.
unfoldable pub before : Range → Range → Bool
before r s = ltb r.0 s.0 || (r.0 == s.0 && leb r.1 s.1)

unfoldable pub insert_range : Range → List Range → List Range
insert_range r [] = r ∷ []
insert_range r (s ∷ ranges) =
    let rest = insert_range r ranges in if before r s then r ∷ s ∷ ranges else s ∷ rest

-- `sort_unstable`: equal pairs are one value, so the order is determined.
unfoldable pub sort_unstable : List Range → List Range
sort_unstable [] = []
sort_unstable (r ∷ ranges) = insert_range r (sort_unstable ranges)

-- `&input[start..end]`
abbrev pub slice : ℕ → ℕ → Bytes → Bytes
slice start end input = take (end - start) (drop start input)

-- The loop over the ranges, with the position up to which the input was copied or struck.
unfoldable pub splice : Bytes → ℕ → List Range → Bytes
splice input copied [] = drop copied input
splice input copied ((start, end) ∷ ranges) = elim (leb end copied) [
  | true ↦ splice input copied ranges
  | false ↦ slice copied (max start copied) input ++ (redacted ++ splice input end ranges)
]

unfoldable pub redact_log_line : Bytes → Bytes
redact_log_line input =
    let ranges = ranges_of input in
    if is_empty ranges then input else splice input 0 (sort_unstable ranges)
