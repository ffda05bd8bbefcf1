-- ===== src/Text/Address/Stops.antt =====
-- No address of the standard library ends with a full stop.
use trail_stash.Base.{
  ◌>>=◌, ℕ, suc, zero, ◌+◌, ◌-◌, ◌*◌, ◌≡◌, refl, Bool, true, false, ◌||◌, Option, none, some, [],
  ◌∷◌, Bytes, arith, ltb, ◌==◌, Bool-cases, Option-cases, inl, inr, if◌then◌else◌, is_empty,
}
use trail_stash.Text.Address.{
  Reader, given, read_digits, read_number, separated, read_octet, read_ipv4_addr, read_group,
  read_groups, read_ipv6_addr, is_socket_addr_v4, is_all_read, to_decimal,
}
use trail_stash.Text.Hex.{to_digit}

bound_some :
    {A B : Type 0} (m : Option A) (f : A → Option B) (r : B)
    → (m >>= f) ≡ some r
    → (x : A) × (m ≡ some x) × (f x ≡ some r)
bound_some none f r e = absurd (ground (arith, e))
bound_some (some x) f r e = (x, refl, e)

-- The last byte is a full stop.
abbrev pub ends_with_stop : Bytes → Bool
ends_with_stop [] = false
ends_with_stop (b ∷ []) = b == b'.'
ends_with_stop (b ∷ c ∷ bytes) = ends_with_stop (c ∷ bytes)

-- Nothing is left, or what is left ends with a full stop.
abbrev stops : Bytes → Bool
stops bytes = is_empty bytes || ends_with_stop bytes

given-stops :
    (sep : ℕ) (bytes rest : Bytes)
    → stops bytes ≡ true
    → given sep bytes ≡ some rest
    → stops rest ≡ true
unfolding given
given-stops sep [] rest h e = absurd (ground arith)
given-stops sep (b ∷ []) rest h e = ground arith
given-stops sep (b ∷ c ∷ bytes) rest h e = ground arith

module _ (digit : ℕ → Option ℕ) (no_stop : digit b'.' ≡ none) (radix : ℕ) where
  read_digits-ends_with_stop :
      (value count : ℕ) (bytes : Bytes)
      → ends_with_stop bytes ≡ true
      → ends_with_stop (read_digits digit radix value count bytes).2 ≡ true
  unfolding read_digits
  read_digits-ends_with_stop value count [] h = absurd (ground arith)
  read_digits-ends_with_stop value count (b ∷ []) h = ground (arith, no_stop)
  read_digits-ends_with_stop value count (b ∷ c ∷ bytes) h = elim (Option-cases (digit b)) [
    | inl e ↦ rw (e, read_digits) h
    | inr (d, e) ↦
        rw (e, read_digits)
          (read_digits-ends_with_stop (value * radix + d) (count + 1) (c ∷ bytes) h)
  ]

  -- A number is never the end of what ends with a full stop.
  read_number-ends_with_stop :
      (most : Option ℕ) (zeros : Bool) (bound : ℕ) (bytes rest : Bytes)
      → stops bytes ≡ true
      → read_number digit radix most zeros bound bytes ≡ some rest
      → ends_with_stop rest ≡ true
  unfolding read_number read_digits
  read_number-ends_with_stop most zeros bound [] rest h e = absurd (ground arith)
  read_number-ends_with_stop most zeros bound (b ∷ bytes) rest h e =
      ground (arith, read_digits-ends_with_stop 0 0 (b ∷ bytes))

read_octet-ends_with_stop :
    (bytes rest : Bytes)
    → stops bytes ≡ true
    → read_octet bytes ≡ some rest
    → ends_with_stop rest ≡ true
unfolding read_octet to_decimal to_digit
read_octet-ends_with_stop bytes rest h e =
    read_number-ends_with_stop to_decimal refl 10 _ _ _ bytes rest h e

read_group-ends_with_stop :
    (bytes rest : Bytes)
    → stops bytes ≡ true
    → read_group bytes ≡ some rest
    → ends_with_stop rest ≡ true
unfolding read_group to_digit
read_group-ends_with_stop bytes rest h e =
    read_number-ends_with_stop to_digit refl 16 _ _ _ bytes rest h e

given_colon :
    (bytes rest : Bytes)
    → ends_with_stop bytes ≡ true
    → given b':' bytes ≡ some rest
    → ends_with_stop rest ≡ true
unfolding given
given_colon [] rest h e = absurd (ground arith)
given_colon (b ∷ []) rest h e = absurd (ground arith)
given_colon (b ∷ c ∷ bytes) rest h e = ground arith

-- An octet after a full stop.
next_octet_stops :
    (index : ℕ) (bytes rest : Bytes)
    → ends_with_stop bytes ≡ true
    → separated b'.' index read_octet bytes ≡ some rest
    → ends_with_stop rest ≡ true
unfolding separated
next_octet_stops zero bytes rest h e = read_octet-ends_with_stop bytes rest (ground (arith, h)) e
next_octet_stops (suc index) bytes rest h e =
    let (mid, g, f) = bound_some (given b'.' bytes) read_octet rest e in
    read_octet-ends_with_stop mid rest (given-stops b'.' bytes mid (ground (arith, h)) g) f

pub read_ipv4_addr-ends_with_stop :
    (bytes rest : Bytes)
    → ends_with_stop bytes ≡ true
    → read_ipv4_addr bytes ≡ some rest
    → ends_with_stop rest ≡ true
unfolding read_ipv4_addr
read_ipv4_addr-ends_with_stop bytes rest h e =
    let (a, ea, e) = bound_some (separated b'.' 0 read_octet bytes) _ rest e in
    let (b, eb, e) = bound_some (separated b'.' 1 read_octet a) _ rest e in
    let (c, ec, e) = bound_some (separated b'.' 2 read_octet b) _ rest e in
    next_octet_stops 3 c rest
      (next_octet_stops 2 b c (next_octet_stops 1 a b (next_octet_stops 0 bytes a h ea) eb) ec) e

-- A part after a colon.
next_part_stops :
    (index : ℕ) (reader : Reader)
    → ((bytes rest : Bytes)
        → ends_with_stop bytes ≡ true
        → reader bytes ≡ some rest
        → ends_with_stop rest ≡ true)
    → (bytes rest : Bytes) → ends_with_stop bytes ≡ true
    → separated b':' index reader bytes ≡ some rest
    → ends_with_stop rest ≡ true
unfolding separated
next_part_stops zero reader f bytes rest h e = f bytes rest h e
next_part_stops (suc index) reader f bytes rest h e =
    let (mid, g, e') = bound_some (given b':' bytes) reader rest e in
    f mid rest (given_colon bytes mid h g) e'

read_groups-ends_with_stop :
    (left index : ℕ) (bytes : Bytes)
    → ends_with_stop bytes ≡ true
    → ends_with_stop (read_groups left index bytes).2 ≡ true
unfolding read_groups
read_groups-ends_with_stop zero index bytes h = h
read_groups-ends_with_stop (suc left) index bytes h =
    elim (Option-cases (if ltb 0 left then separated b':' index read_ipv4_addr bytes else none)) [
      | inr (rest, e) ↦
          rw (e, read_groups)
            (next_part_stops index read_ipv4_addr read_ipv4_addr-ends_with_stop bytes rest h
              (ground arith))
      | inl e ↦ elim (Option-cases (separated b':' index read_group bytes)) [
        | inl f ↦ rw (e, read_groups, f) h
        | inr (rest, f) ↦
            rw (e, read_groups, f)
              (read_groups-ends_with_stop left (index + 1) rest (
                next_part_stops index read_group
                  (λ b r k. read_group-ends_with_stop b r (ground (arith, k))) bytes rest h f))
      ]
    ]

pub read_ipv6_addr-ends_with_stop :
    (bytes rest : Bytes)
    → ends_with_stop bytes ≡ true
    → read_ipv6_addr bytes ≡ some rest
    → ends_with_stop rest ≡ true
unfolding read_ipv6_addr
read_ipv6_addr-ends_with_stop bytes rest h e =
    let (size, ipv4, left) = read_groups 8 0 bytes in
    let left_stops : ends_with_stop left ≡ true = read_groups-ends_with_stop 8 0 bytes h in
    elim (Bool-cases (size == 8)) [
      | inl f ↦ ground (arith, left_stops)
      | inr f ↦ elim (Bool-cases ipv4) [
        | inl g ↦ absurd (ground arith)
        | inr g ↦
            let (first, e1, e') = bound_some (given b':' left) _ rest (rw (f, g) at e) in
            let (second, e2, e'') = bound_some (given b':' first) _ rest e' in
            ground (
              arith,
              read_groups-ends_with_stop (7 - size) 0 second
                  (given_colon first second (given_colon left first left_stops e1) e2),
              e'',
            )
      ]
    ]

pub not_all_read :
    (result : Option Bytes)
    → ((rest : Bytes) → result ≡ some rest → ends_with_stop rest ≡ true)
    → is_all_read result ≡ false
not_all_read none f = refl
not_all_read (some []) f = absurd (ground (arith, f [] refl))
not_all_read (some (b ∷ rest)) f = refl

pub is_socket_addr_v4_stop :
    (bytes : Bytes) → ends_with_stop bytes ≡ true → is_socket_addr_v4 bytes ≡ false
unfolding is_socket_addr_v4 to_decimal to_digit
is_socket_addr_v4_stop bytes h = not_all_read _ (λ rest e.
    let (left, e1, e') = bound_some (read_ipv4_addr bytes) _ rest e in
    let (port, e2, e'') = bound_some (given b':' left) _ rest e' in
    read_number-ends_with_stop to_decimal refl 10 none true (256 * 256) port rest
      (ground (arith, given_colon left port (read_ipv4_addr-ends_with_stop bytes left h e1) e2))
      e'')
