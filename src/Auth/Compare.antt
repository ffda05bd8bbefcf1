-- ===== src/Auth/Compare.antt =====
-- `ct_eq` and `authorize` of `rust/src/auth.rs`.
use Prim.Native.Nat.{bit_or, bit_xor}
use trail_stash.Base.{
  sym, ap₂, ℕ, ◌<◌, ◌≡◌, refl, ap, ◌↔◌, true, Option, none, some, [], ◌∷◌, arith, Bytes, IsByte,
  All, length,
}
use trail_stash.Bits.{bit_xor-byte, bit_or-byte}
use trail_stash.Text.{as_bytes_injective, Text, as_bytes, as_bytes-IsByte, IsText}
use trail_stash.Auth.{is_allowed, diff_of, ct_eq, authorize}

diff_of-zero :
    (d : ℕ) (a b : Bytes)
    → d < 256
    → All IsByte a
    → All IsByte b
    → length a ≡ length b
    → (diff_of d a b ≡ 0 → (d ≡ 0) × (a ≡ b)) × (d ≡ 0 → a ≡ b → diff_of d a b ≡ 0)
unfolding diff_of
diff_of-zero d [] [] h p q l = (λ e. (e, refl), λ e f. e)
diff_of-zero d [] (y ∷ b) h p q l = absurd (omega arith)
diff_of-zero d (x ∷ a) [] h p q l = absurd (omega arith)
diff_of-zero d (x ∷ a) (y ∷ b) h p q l =
    let xor = bit_xor-byte x y p.0 q.0 in
    let or = bit_or-byte d (bit_xor x y) h xor.0 in
    let ih = diff_of-zero (bit_or d (bit_xor x y)) a b or.0 p.1 q.1 (omega arith) in
    (
      λ e.
          let (zero_or, rest) = ih.0 e in
          let (zero_d, zero_xor) = or.1 zero_or in (zero_d, ap₂ ◌∷◌ (xor.1 zero_xor) rest),
      λ e f. ih.1 (or.2 e (xor.2 (ground arith))) (ground arith),
    )

-- On bytes the constant-time comparison decides equality.
pub ct_eq_iff : (a b : Bytes) → All IsByte a → All IsByte b → (ct_eq a b ≡ true) ↔ (a ≡ b)
unfolding ct_eq
ct_eq_iff a b p q = (
  λ h.
      let same : length a ≡ length b = ground arith in
      ((diff_of-zero 0 a b (omega arith) p q same).0 (ground arith)).1,
  λ e.
      let same : length a ≡ length b = ap length e in
      let zero : diff_of 0 a b ≡ 0 = (diff_of-zero 0 a b (omega arith) p q same).1 refl e in
      ground arith,
)

abbrev pub IsOptionText : Option Text → Type 0
IsOptionText none = Unit
IsOptionText (some s) = IsText s

-- The provided token is the expected one, where one is expected.
abbrev pub Entitled : Option Text → Option Text → Type 0
Entitled none provided = Unit
Entitled (some psk) provided = provided ≡ some psk

-- For texts of code points a request may proceed exactly when no key is configured or its token is the
-- key.
pub authorize_iff :
    (expected provided : Option Text)
    → IsOptionText expected
    → IsOptionText provided
    → (is_allowed (authorize expected provided) ≡ true) ↔ Entitled expected provided
unfolding authorize
authorize_iff none provided p q = (λ h. tt, λ h. refl)
authorize_iff (some psk) none p q = (λ h. cc, λ h. cc)
authorize_iff (some psk) (some tok) p q =
    let same =
      ct_eq_iff (as_bytes psk) (as_bytes tok) (as_bytes-IsByte psk p) (as_bytes-IsByte tok q) in
    (
      λ h. ap some (sym (as_bytes_injective psk tok (same.0 (ground arith)))),
      λ h. let e : ct_eq (as_bytes psk) (as_bytes tok) ≡ true = same.1 (ground arith) in rw e refl,
    )
