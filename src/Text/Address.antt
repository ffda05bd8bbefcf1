-- ===== src/Text/Address.antt =====
-- `from_str` of `std::net::IpAddr` and `std::net::SocketAddr`, as far as it tells whether a text is an
-- address. A reader gives what is left of the text, or `none` where it fails and takes nothing.
pub mod Stops
use trail_stash.Base.{
  ℕ, zero, suc, ◌+◌, ◌-◌, ◌*◌, Bool, true, false, ◌&&◌, not, Option, none, some, [], ◌∷◌, Bytes,
  ltb, ◌==◌, if◌then◌else◌, is_empty, ◌>>=◌,
}
use trail_stash.Text.Hex.{to_digit}

-- `to_digit(10)`
unfoldable pub to_decimal : ℕ → Option ℕ
to_decimal c = do d ← to_digit c; if ltb d 10 then some d else none

abbrev pub Reader : Type 0
Reader = Bytes → Option Bytes

-- `read_given_char`
unfoldable pub given : ℕ → Reader
given wanted [] = none
given wanted (b ∷ bs) = if b == wanted then some bs else none

-- The digits at the front: their value, their number, and the rest.
unfoldable pub read_digits : (ℕ → Option ℕ) → ℕ → ℕ → ℕ → Bytes → ℕ × ℕ × Bytes
read_digits digit radix value count [] = (value, count, [])
read_digits digit radix value count (b ∷ bs) = elim (digit b) [
  | none ↦ (value, count, b ∷ bs)
  | some d ↦ read_digits digit radix (value * radix + d) (count + 1) bs
]

abbrev pub starts_with_zero : Bytes → Bool
starts_with_zero [] = false
starts_with_zero (b ∷ bs) = b == b'0'

-- `read_number`: too many digits, a leading zero where none may be, and a value that is too large fail.
unfoldable pub read_number : (ℕ → Option ℕ) → ℕ → Option ℕ → Bool → ℕ → Reader
read_number digit radix max_digits allow_zero_prefix bound bytes =
    let (value, count, rest) = read_digits digit radix 0 0 bytes in
    if count == 0
    then none
    else if elim max_digits [ none ↦ false | some most ↦ ltb most count ]
    then none
    else if not allow_zero_prefix && starts_with_zero bytes && ltb 1 count
    then none
    else if ltb value bound
    then some rest
    else none

-- `read_separator`: before all but the first part.
unfoldable pub separated : ℕ → ℕ → Reader → Reader
separated sep zero inner bytes = inner bytes
separated sep (suc index) inner bytes = do rest ← given sep bytes; inner rest

unfoldable pub read_octet : Reader
read_octet = read_number to_decimal 10 (some 3) false 256

unfoldable pub read_ipv4_addr : Reader
read_ipv4_addr bytes = do
  a ← separated b'.' 0 read_octet bytes
  b ← separated b'.' 1 read_octet a
  c ← separated b'.' 2 read_octet b
  separated b'.' 3 read_octet c

unfoldable pub read_group : Reader
read_group = read_number to_digit 16 (some 4) true (256 * 256)

-- `read_groups` with so many slots left: how many were read, whether an embedded address of version 4
-- ended them, and the rest. Such an address takes two slots.
unfoldable pub read_groups : ℕ → ℕ → Bytes → ℕ × Bool × Bytes
read_groups zero index bytes = (index, false, bytes)
read_groups (suc left) index bytes =
    elim (if ltb 0 left then separated b':' index read_ipv4_addr bytes else none) [
      | some rest ↦ (index + 2, true, rest)
      | none ↦ elim (separated b':' index read_group bytes) [
        | some rest ↦ read_groups left (index + 1) rest
        | none ↦ (index, false, bytes)
      ]
    ]

unfoldable pub read_ipv6_addr : Reader
read_ipv6_addr bytes =
    let (head_size, head_ipv4, rest) = read_groups 8 0 bytes in
    if head_size == 8 then some rest else if head_ipv4 then none else do
      first ← given b':' rest
      second ← given b':' first
      some (read_groups (7 - head_size) 0 second).2

abbrev pub is_all_read : Option Bytes → Bool
is_all_read none = false
is_all_read (some rest) = is_empty rest

-- `parse::<IpAddr>().is_ok()`: version 6 is tried only where version 4 fails.
unfoldable pub is_ip_addr : Bytes → Bool
is_ip_addr bytes = elim (read_ipv4_addr bytes) [
  | some rest ↦ is_empty rest
  | none ↦ is_all_read (read_ipv6_addr bytes)
]

-- `parse::<SocketAddr>().is_ok()` of a text that does not start with a bracket, as one of version 6 does.
unfoldable pub is_socket_addr_v4 : Bytes → Bool
is_socket_addr_v4 bytes = is_all_read (do
  rest ← read_ipv4_addr bytes
  port ← given b':' rest
  read_number to_decimal 10 none true (256 * 256) port)
