-- ===== src/Text/Trim.antt =====
-- Laws of `str::trim`.
use trail_stash.Base.{
  List-cases, ℕ, sym, ◌≡◌, ◌≢◌, refl, ap, ◌∙◌, ◌⊎◌, inl, inr, false, [], ◌∷◌, ◌++◌, arith,
  Bool-cases,
}
use trail_stash.Text.{Text, is_whitespace, trim_start, trim_end, trim}

append-ne-nil : (s token : Text) → token ≢ [] → s ++ token ≢ []
append-ne-nil [] token n = n
append-ne-nil (c ∷ s) token n = λ e. cc

trim_end_nil : trim_end [] ≡ []
unfolding trim_end
trim_end_nil = refl

trim_nil : trim [] ≡ []
unfolding trim trim_start trim_end
trim_nil = refl

trim_start_head :
    (s : Text)
    → (trim_start s ≡ [])
      ⊎ ((c : ℕ) × (r : Text) × (trim_start s ≡ c ∷ r) × (is_whitespace c ≡ false))
unfolding trim_start
trim_start_head [] = inl refl
trim_start_head (c ∷ s) = elim (Bool-cases (is_whitespace c)) [
  | inl white ↦ rw white (trim_start_head s)
  | inr black ↦ inr (c, s, rw black, black)
]

trim_end-black :
    (c : ℕ) (s : Text) → is_whitespace c ≡ false → (r : Text) × (trim_end (c ∷ s) ≡ c ∷ r)
unfolding trim_end
trim_end-black c s black = elim (List-cases (trim_end s)) [
  | inl e ↦ ([], rw (e, black))
  | inr (d, r, e) ↦ (d ∷ r, rw e)
]

trim_end_idem : (s : Text) → trim_end (trim_end s) ≡ trim_end s
unfolding trim_end
trim_end_idem [] = refl
trim_end_idem (c ∷ s) = elim (List-cases (trim_end s)) [
  | inl e ↦ ground arith
  | inr (d, r, e) ↦ ground (arith, trim_end_idem s)
]

trim_start-black : (c : ℕ) (s : Text) → is_whitespace c ≡ false → trim_start (c ∷ s) ≡ c ∷ s
unfolding trim_start
trim_start-black c s black = rw black

trim_end-trim : (s : Text) → trim s ≡ s → trim_end s ≡ s
unfolding trim
trim_end-trim s t = ap trim_end (sym t) ∙ trim_end_idem (trim_start s) ∙ t

trim-black : (c : ℕ) (s : Text) → is_whitespace c ≡ false → trim (c ∷ s) ≡ trim_end (c ∷ s)
unfolding trim
trim-black c s black = ap trim_end (trim_start-black c s black)

-- Trimming twice is trimming once.
pub trim_idem : (s : Text) → trim (trim s) ≡ trim s
unfolding trim
trim_idem s = elim (trim_start_head s) [
  | inl e ↦ (let t : trim s ≡ [] = ap trim_end e ∙ trim_end_nil in ap trim t ∙ trim_nil ∙ sym t)
  | inr (c, r, e, black) ↦
      let (r', f) = trim_end-black c r black in
      let t : trim s ≡ c ∷ r' = ap trim_end e ∙ f in
      ap trim t ∙ trim-black c r' black ∙ ap trim_end (sym f) ∙ trim_end_idem (c ∷ r) ∙ f ∙ sym t
]

trim_end-append :
    (s token : Text) → trim_end token ≡ token → token ≢ [] → trim_end (s ++ token) ≡ s ++ token
unfolding trim_end
trim_end-append [] token t n = t
trim_end-append (c ∷ s) token t n = elim (List-cases (s ++ token)) [
  | inl e ↦ absurd (append-ne-nil s token n e)
  | inr (d, r, e) ↦ ground (arith, trim_end-append s token t n, e)
]

-- A text that starts with no whitespace and ends in a trimmed text is left alone.
pub trim-append :
    (c : ℕ) (s token : Text)
    → is_whitespace c ≡ false
    → trim token ≡ token
    → token ≢ []
    → trim (c ∷ s ++ token) ≡ c ∷ s ++ token
trim-append c s token black t n =
    trim-black c (s ++ token) black ∙ trim_end-append (c ∷ s) token (trim_end-trim token t) n
