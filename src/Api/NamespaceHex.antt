-- ===== src/Api/NamespaceHex.antt =====
-- The text of a namespace id: `parse_namespace_hex` of `rust/src/api.rs` against `namespace_hex` of
-- `rust/src/push.rs`.
use trail_stash.Base.{
  inr, subst, inl, Option-cases, ℕ, ◌+◌, ◌*◌, ◌/◌, ◌%◌, ◌<◌, ◌≡◌, refl, sym, ap, ◌∙◌, ◌↔◌, some, [],
  ◌∷◌, arith, Bytes, IsByte, All, length,
}
use trail_stash.Result.{Result-cases, ok}
use trail_stash.Subscriptions.{NamespaceId}
use trail_stash.Text.{IsAscii, Text, as_bytes, len, as_bytes_ascii, as_bytes_ascii_inv}
use trail_stash.Text.Hex.{
  hex_encode, lower_digit, join_u8, join_u8_lem, hex_encode_ascii, length-hex_encode,
}
use trail_stash.Push.{namespace_hex}
use trail_stash.Api.{lower_hex_val, namespace_bytes, parse_namespace_hex}

lower_hex_val-lower_digit : (d : ℕ) → d < 16 → lower_hex_val (lower_digit d) ≡ some d
unfolding lower_hex_val lower_digit
lower_hex_val-lower_digit d h = ground arith

lower_hex_val_inv : (b d : ℕ) → lower_hex_val b ≡ some d → (d < 16) × (lower_digit d ≡ b)
unfolding lower_hex_val lower_digit
lower_hex_val_inv b d h = ground arith

namespace_bytes-hex_encode : (bs : Bytes) → All IsByte bs → namespace_bytes (hex_encode bs) ≡ ok bs
unfolding namespace_bytes hex_encode
namespace_bytes-hex_encode [] h = refl
namespace_bytes-hex_encode (b ∷ bs) h = ground (
  arith,
  lower_hex_val-lower_digit (b / 16),
  lower_hex_val-lower_digit (b % 16),
  join_u8_lem (b / 16) (b % 16),
  namespace_bytes-hex_encode bs h.1,
)

joined :
    (a b hi lo : ℕ) (rest out : Bytes)
    → lower_hex_val a ≡ some hi
    → lower_hex_val b ≡ some lo
    → All IsByte out × (rest ≡ hex_encode out)
    → All IsByte (join_u8 hi lo ∷ out) × (a ∷ b ∷ rest ≡ hex_encode (join_u8 hi lo ∷ out))
unfolding hex_encode
joined a b hi lo rest out e f r =
    let p = lower_hex_val_inv a hi e in
    let q = lower_hex_val_inv b lo f in
    let j = join_u8_lem hi lo p.0 q.0 in
    let dh : (hi * 16 + lo) / 16 ≡ hi = omega (arith, p.0, q.0) in
    let dl : (hi * 16 + lo) % 16 ≡ lo = omega (arith, p.0, q.0) in
    ((omega (arith, j, p.0, q.0), r.0), rw (j, dh, dl, p.1, q.1, r.1) refl)

namespace_bytes_inv :
    (s out : Bytes) → namespace_bytes s ≡ ok out → All IsByte out × (s ≡ hex_encode out)
unfolding namespace_bytes hex_encode
namespace_bytes_inv [] [] h = (tt, refl)
namespace_bytes_inv [] (o ∷ out) h = cc
namespace_bytes_inv (_ ∷ []) out h = cc
namespace_bytes_inv (a ∷ b ∷ rest) out h = elim (Option-cases (lower_hex_val a)) [
  | inl e ↦ absurd (ground arith)
  | inr (hi, e) ↦ elim (Option-cases (lower_hex_val b)) [
    | inl f ↦ absurd (ground arith)
    | inr (lo, f) ↦ elim (Result-cases (namespace_bytes rest)) [
      | inr (x, g) ↦ absurd (ground arith)
      | inl (out', g) ↦
          let same : join_u8 hi lo ∷ out' ≡ out = ground arith in
          subst (λ o. All IsByte o × (a ∷ b ∷ rest ≡ hex_encode o)) same
            (joined a b hi lo rest out' e f (namespace_bytes_inv rest out' g))
    ]
  ]
]

-- A text parses to a namespace id exactly when the id has 32 bytes and the text is what the stash
-- prints for it: 64 lowercase hexadecimal digits.
pub parse_namespace_hex_iff :
    (s : Text) (ns : NamespaceId)
    → (parse_namespace_hex s ≡ ok ns) ↔ (All IsByte ns × (length ns ≡ 32) × (s ≡ namespace_hex ns))
unfolding parse_namespace_hex namespace_hex
parse_namespace_hex_iff s ns = (
  λ e.
      let counted : len s ≡ 64 = ground arith in
      let r = namespace_bytes_inv (as_bytes s) ns (ground arith) in
      let ascii : IsAscii (as_bytes s) = subst IsAscii (sym r.1) (hex_encode_ascii ns r.0) in
      (
        r.0,
        omega (arith, counted, length-hex_encode ns, ap length r.1),
        sym (as_bytes_ascii_inv s ascii) ∙ r.1,
      ),
  λ (bytes, counted, e).
      let same : as_bytes s ≡ hex_encode ns =
        rw e (as_bytes_ascii (hex_encode ns) (hex_encode_ascii ns bytes)) in
      ground (arith, length-hex_encode ns, namespace_bytes-hex_encode ns bytes, ap length same),
)
