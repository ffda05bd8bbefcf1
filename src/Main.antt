-- ===== src/Main.antt =====
-- `rust/src/bin/trail-stash.rs`: the parser of the secret key. The rest of the binary wires the node up.
use trail_stash.Push.{namespace_hex}
use trail_stash.Api.NamespaceHex.{parse_namespace_hex_iff}
use trail_stash.Base.{
  sym, ◌∙◌, length, ap, ℕ, ◌+◌, ◌-◌, ◌&&◌, ◌≡◌, refl, Option, none, some, [], ◌∷◌, Bytes, leb, not,
  ◌==◌, if◌then◌else◌, ◌>>=◌, arith, inl, inr, Bool-cases, Option-cases,
}
use trail_stash.Api.{lower_hex_val, namespace_bytes, parse_namespace_hex}
use trail_stash.Result.{Result, Result-cases, ok, err}
use trail_stash.Text.{Text, text, as_bytes, len, trim}
use trail_stash.Text.Hex.{join_u8}

unfoldable pub lower_hex : ℕ → Option ℕ
lower_hex b =
    if leb b'0' b && leb b b'9'
    then some (b - b'0')
    else if leb b'a' b && leb b b'f'
    then some (b - b'a' + 10)
    else none

-- The loop over `0..32`, two bytes a round.
unfoldable pub hex_32_bytes : Bytes → Option Bytes
hex_32_bytes [] = some []
hex_32_bytes (_ ∷ []) = none
hex_32_bytes (a ∷ b ∷ rest) = do
  hi ← lower_hex a
  lo ← lower_hex b
  out ← hex_32_bytes rest
  some (join_u8 hi lo ∷ out)

unfoldable pub decode_hex_32 : Text → Option Bytes
decode_hex_32 s = if not (len s == 64) then none else hex_32_bytes (as_bytes s)

-- `load_secret_key`, up to the key that is made of the bytes.
unfoldable pub load_secret_key : (Text → Option Text) → Result Text Bytes
load_secret_key get = elim (get (text "TRAIL_STASH_SECRET_KEY")) [
  | none ↦ err (
      text
        "TRAIL_STASH_SECRET_KEY is required (64 hex chars). Generate one with: openssl rand -hex 32")
  | some hex ↦ elim (decode_hex_32 (trim hex)) [
    | none ↦ err (text "TRAIL_STASH_SECRET_KEY must be exactly 64 lowercase hex chars")
    | some bytes ↦ ok bytes
  ]
]

-- `Result::ok`
abbrev pub to_option {ℓ} : {E A : Type ℓ} → Result E A → Option A
to_option (ok a) = some a
to_option (err e) = none

to_option_inv {ℓ} : {E A : Type ℓ} (r : Result E A) (a : A) → to_option r ≡ some a → r ≡ ok a
to_option_inv (ok b) a e = cc
to_option_inv (err b) a e = cc

lower_hex_lem : (b : ℕ) → lower_hex b ≡ lower_hex_val b
unfolding lower_hex lower_hex_val
lower_hex_lem b = refl

hex_32_bytes_lem : (bs : Bytes) → hex_32_bytes bs ≡ to_option (namespace_bytes bs)
unfolding hex_32_bytes namespace_bytes
hex_32_bytes_lem [] = refl
hex_32_bytes_lem (_ ∷ []) = refl
hex_32_bytes_lem (a ∷ b ∷ rest) = elim (Option-cases (lower_hex_val a)) [
  | inl e ↦ rw (lower_hex_lem a, e) refl
  | inr (h, e) ↦ elim (Option-cases (lower_hex_val b)) [
    | inl f ↦ rw (lower_hex_lem a, lower_hex_lem b, e, f) refl
    | inr (l, f) ↦ elim (Result-cases (namespace_bytes rest)) [
      | inr (m, g) ↦ rw (lower_hex_lem a, lower_hex_lem b, e, f, hex_32_bytes_lem rest, g) refl
      | inl (o, g) ↦ rw (lower_hex_lem a, lower_hex_lem b, e, f, hex_32_bytes_lem rest, g) refl
    ]
  ]
]

-- The binary's parser of the secret key and the API's parser of a namespace id agree on every text: one gives
-- bytes exactly if the other does, and then the same bytes.
pub decode_hex_32-parse_namespace_hex :
    (s : Text) → decode_hex_32 s ≡ to_option (parse_namespace_hex s)
unfolding decode_hex_32 parse_namespace_hex
decode_hex_32-parse_namespace_hex s = elim (Bool-cases (len s == 64)) [
  | inl e ↦ ground (arith, hex_32_bytes_lem (as_bytes s))
  | inr e ↦ ground arith
]

-- A secret key that is loaded is 32 bytes, and the setting, trimmed, is its lowercase hexadecimal text.
pub load_secret_key_lem :
    (get : Text → Option Text) (key : Bytes)
    → load_secret_key get ≡ ok key
    → (hex : Text) × (get (text "TRAIL_STASH_SECRET_KEY") ≡ some hex)
      × (length key ≡ 32)
      × (trim hex ≡ namespace_hex key)
unfolding load_secret_key
load_secret_key_lem get key e = elim (Option-cases (get (text "TRAIL_STASH_SECRET_KEY"))) [
  | inl f ↦ absurd (ground (arith, e, f))
  | inr (hex, f) ↦ elim (Option-cases (decode_hex_32 (trim hex))) [
    | inl g ↦ absurd (ground (arith, e, f, g))
    | inr (bytes, g) ↦
        let same : bytes ≡ key = ground (arith, e, f, g) in
        let parsed : to_option (parse_namespace_hex (trim hex)) ≡ some key =
          sym (decode_hex_32-parse_namespace_hex (trim hex)) ∙ g ∙ ap some same in
        let form =
          (parse_namespace_hex_iff (trim hex) key).0
            (to_option_inv (parse_namespace_hex (trim hex)) key parsed) in
        (hex, f, form.1, form.2)
  ]
]
