-- ===== src/Telemetry/ShortHex.antt =====
-- The join keys of `rust/src/telemetry.rs` pass the redaction of the log.
use trail_stash.Base.{
  ◌⊎◌, ℕ, suc, zero, ◌+◌, ◌*◌, ◌/◌, ◌%◌, ◌≤◌, ◌<◌, ◌≡◌, refl, Bool, true, false, Option, none, some,
  [], ◌∷◌, Bytes, IsByte, All, length, all, take, arith, Option-cases, inl, inr,
}
use trail_stash.LogRedaction.{
  is_ascii_hexdigit, is_network_char, is_opaque_char, is_address, is_identity, ranges_of,
  redact_log_line,
}
use trail_stash.LogRedaction.Scan.{scan_rejected}
use trail_stash.Text.Address.{
  Reader, given, read_digits, read_number, separated, read_octet, read_ipv4_addr, read_group,
  read_groups, read_ipv6_addr, is_ip_addr, is_socket_addr_v4,
}
use trail_stash.Text.Hex.{lower_digit, hex_encode, length-hex_encode}
use trail_stash.Telemetry.{short_hex}

abbrev IsHex : Bytes → Type 0
IsHex bytes = all is_ascii_hexdigit bytes ≡ true

given_hex :
    (sep : ℕ) (bytes : Bytes) → is_ascii_hexdigit sep ≡ false → IsHex bytes → given sep bytes ≡ none
unfolding given
given_hex sep [] s h = refl
given_hex sep (b ∷ bytes) s h = ground arith

read_digits-IsHex :
    (digit : ℕ → Option ℕ) (radix value count : ℕ) (bytes : Bytes)
    → IsHex bytes
    → IsHex (read_digits digit radix value count bytes).2
unfolding read_digits
read_digits-IsHex digit radix value count [] h = refl
read_digits-IsHex digit radix value count (b ∷ bytes) h = elim (Option-cases (digit b)) [
  | inl e ↦ rw (e, read_digits) h
  | inr (d, e) ↦
      rw (e, read_digits)
        (read_digits-IsHex digit radix (value * radix + d) (count + 1) bytes (ground arith))
]

-- Of hexadecimal digits a number leaves hexadecimal digits.
read_number-IsHex :
    (digit : ℕ → Option ℕ) (radix : ℕ) (most : Option ℕ) (zeros : Bool) (bound : ℕ)
    (bytes rest : Bytes)
    → IsHex bytes
    → read_number digit radix most zeros bound bytes ≡ some rest
    → IsHex rest
unfolding read_number
read_number-IsHex digit radix most zeros bound bytes rest h e =
    ground (arith, read_digits-IsHex digit radix 0 0 bytes h)

read_octet-IsHex : (bytes rest : Bytes) → IsHex bytes → read_octet bytes ≡ some rest → IsHex rest
unfolding read_octet
read_octet-IsHex bytes rest h e = read_number-IsHex _ _ _ _ _ bytes rest h e

read_group-IsHex : (bytes rest : Bytes) → IsHex bytes → read_group bytes ≡ some rest → IsHex rest
unfolding read_group
read_group-IsHex bytes rest h e = read_number-IsHex _ _ _ _ _ bytes rest h e

read_ipv4_addr_hex : (bytes : Bytes) → IsHex bytes → read_ipv4_addr bytes ≡ none
unfolding read_ipv4_addr separated
read_ipv4_addr_hex bytes h = elim (Option-cases (read_octet bytes)) [
  | inl e ↦ rw e refl
  | inr (rest, e) ↦ rw (e, given_hex b'.' rest refl (read_octet-IsHex bytes rest h e)) refl
]

separated_hex :
    (sep index : ℕ) (reader : Reader) (bytes : Bytes)
    → is_ascii_hexdigit sep ≡ false
    → IsHex bytes
    → separated sep (suc index) reader bytes ≡ none
unfolding separated
separated_hex sep index reader bytes s h = rw (given_hex sep bytes s h) refl

-- No group follows the first.
read_groups_stop :
    (limit index : ℕ) (bytes : Bytes)
    → IsHex bytes
    → read_groups limit (suc index) bytes ≡ (suc index, false, bytes)
unfolding read_groups
read_groups_stop zero index bytes h = refl
read_groups_stop (suc limit) index bytes h = ground (
  arith,
  separated_hex b':' index read_ipv4_addr bytes refl h,
  separated_hex b':' index read_group bytes refl h,
)

-- Of hexadecimal digits at most one group of version 6 is read.
read_groups-IsHex :
    (limit : ℕ) (bytes : Bytes)
    → IsHex bytes
    → (rest : Bytes) × IsHex rest
      × ((read_groups (suc limit) 0 bytes ≡ (0, false, rest))
          ⊎ (read_groups (suc limit) 0 bytes ≡ (1, false, rest)))
unfolding read_groups separated
read_groups-IsHex limit bytes h = elim (Option-cases (read_group bytes)) [
  | inl e ↦ (bytes, h, inl (ground (arith, read_ipv4_addr_hex bytes h, e)))
  | inr (rest, e) ↦
      let h' = read_group-IsHex bytes rest h e in
      (
        rest,
        h',
        inr (ground (arith, read_ipv4_addr_hex bytes h, e, read_groups_stop limit 0 rest h')),
      )
]

read_ipv6_addr_hex : (bytes : Bytes) → IsHex bytes → read_ipv6_addr bytes ≡ none
unfolding read_ipv6_addr
read_ipv6_addr_hex bytes h =
    let (rest, h', groups) = read_groups-IsHex 7 bytes h in
    elim groups [
      | inl e ↦ rw (e, given_hex b':' rest refl h') refl
      | inr e ↦ rw (e, given_hex b':' rest refl h') refl
    ]

-- No text of hexadecimal digits alone is an address.
is_address_hex : (bytes : Bytes) → IsHex bytes → is_address bytes ≡ false
unfolding is_address is_ip_addr is_socket_addr_v4
is_address_hex bytes h =
    rw (read_ipv4_addr_hex bytes h, is_ip_addr, read_ipv6_addr_hex bytes h) refl

hex_network : (bytes : Bytes) → IsHex bytes → all is_network_char bytes ≡ true
unfolding is_network_char
hex_network [] h = refl
hex_network (b ∷ bytes) h = ground (arith, hex_network bytes)

hex_opaque : (bytes : Bytes) → IsHex bytes → all is_opaque_char bytes ≡ true
unfolding is_opaque_char
hex_opaque [] h = refl
hex_opaque (b ∷ bytes) h = ground (arith, hex_opaque bytes)

is_identity_short : (bytes : Bytes) → length bytes < 32 → is_identity bytes ≡ false
unfolding is_identity
is_identity_short bytes h = ground arith

lower_digit_hex : (d : ℕ) → d < 16 → is_ascii_hexdigit (lower_digit d) ≡ true
unfolding lower_digit
lower_digit_hex d h = ground arith

hex_encode-IsHex : (bytes : Bytes) → All IsByte bytes → IsHex (hex_encode bytes)
unfolding hex_encode
hex_encode-IsHex [] h = refl
hex_encode-IsHex (b ∷ bytes) (h, hs) =
    ground (arith, lower_digit_hex (b / 16), lower_digit_hex (b % 16), hex_encode-IsHex bytes hs)

ranges_of_hex : (bytes : Bytes) → IsHex bytes → length bytes < 32 → ranges_of bytes ≡ []
unfolding ranges_of
ranges_of_hex bytes h short =
    rw
      (
        scan_rejected is_network_char is_address bytes (hex_network bytes h)
            (is_address_hex bytes h),
        scan_rejected is_opaque_char is_identity bytes (hex_opaque bytes h)
            (is_identity_short bytes short),
      )
      refl

take-All : (n : ℕ) (bytes : Bytes) → All IsByte bytes → All IsByte (take n bytes)
take-All zero bytes h = tt
take-All (suc n) [] h = tt
take-All (suc n) (b ∷ bytes) (h, hs) = (h, take-All n bytes hs)

length-take : (n : ℕ) (bytes : Bytes) → length (take n bytes) ≤ n
length-take zero bytes = omega arith
length-take (suc n) [] = omega arith
length-take (suc n) (b ∷ bytes) = omega (arith, length-take n bytes)

short_hex_range : (bytes : Bytes) → All IsByte bytes → ranges_of (short_hex bytes) ≡ []
unfolding short_hex
short_hex_range bytes h =
    ranges_of_hex (short_hex bytes) (hex_encode-IsHex (take 5 bytes) (take-All 5 bytes h))
      (omega (arith, length-hex_encode (take 5 bytes), length-take 5 bytes))

-- The short join key of any bytes is never struck: a redacted line keeps it as it is.
pub short_hex_kept :
    (bytes : Bytes) → All IsByte bytes → redact_log_line (short_hex bytes) ≡ short_hex bytes
unfolding redact_log_line
short_hex_kept bytes h = rw (short_hex_range bytes h) refl
