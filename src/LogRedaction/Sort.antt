-- ===== src/LogRedaction/Sort.antt =====
-- The ranges of `rust/src/log_redaction.rs` in order: sorting keeps what they cover.
use trail_stash.Base.{
  ℕ, suc, ◌+◌, ◌≤◌, ◌≡◌, refl, ap, ◌∙◌, Bool, true, false, ◌&&◌, ◌||◌, List, [], ◌∷◌, ◌++◌, Bytes,
  length, All, leb, ltb, arith, Bool-cases, inl, inr,
}
use trail_stash.LogRedaction.{Range, before, insert_range, sort_unstable, close_run, scan}
use trail_stash.LogRedaction.Cover.{covered, uncovered, Sorted, Within}

abbrev holds : ℕ → Range → Bool
holds i r = leb r.0 i && ltb i r.1

covered-insert_range :
    (i : ℕ) (r : Range) (ranges : List Range)
    → covered i (insert_range r ranges) ≡ (holds i r || covered i ranges)
unfolding insert_range
covered-insert_range i r [] = refl
covered-insert_range i r (s ∷ ranges) = ground (arith, covered-insert_range i r ranges)

pub covered-sort_unstable :
    (i : ℕ) (ranges : List Range) → covered i (sort_unstable ranges) ≡ covered i ranges
unfolding sort_unstable
covered-sort_unstable i [] = refl
covered-sort_unstable i (r ∷ ranges) =
    covered-insert_range i r (sort_unstable ranges)
    ∙ ap (◌||◌ (holds i r)) (covered-sort_unstable i ranges)

pub covered-append :
    (i : ℕ) (xs ys : List Range) → covered i (xs ++ ys) ≡ (covered i xs || covered i ys)
covered-append i [] ys = refl
covered-append i (x ∷ xs) ys = ground (arith, covered-append i xs ys)

-- Ranges that cover the same positions leave the same bytes.
pub uncovered_same :
    (xs ys : List Range)
    → ((j : ℕ) → covered j xs ≡ covered j ys)
    → (i : ℕ) (bytes : Bytes) → uncovered xs i bytes ≡ uncovered ys i bytes
unfolding uncovered
uncovered_same xs ys h i [] = refl
uncovered_same xs ys h i (b ∷ bytes) = ground (arith, h i, uncovered_same xs ys h (suc i) bytes)

All-insert_range {ℓ} :
    (P : Range → Type ℓ) (r : Range) (ranges : List Range)
    → P r
    → All P ranges
    → All P (insert_range r ranges)
unfolding insert_range
All-insert_range P r [] p h = (p, tt)
All-insert_range P r (s ∷ ranges) p h = elim (Bool-cases (before r s)) [
  | inl e ↦ rw (e, insert_range) (p, h)
  | inr e ↦ rw (e, insert_range) (h.0, All-insert_range P r ranges p h.1)
]

pub All-sort_unstable {ℓ} :
    (P : Range → Type ℓ) (ranges : List Range) → All P ranges → All P (sort_unstable ranges)
unfolding sort_unstable
All-sort_unstable P [] h = tt
All-sort_unstable P (r ∷ ranges) h =
    All-insert_range P r (sort_unstable ranges) h.0 (All-sort_unstable P ranges h.1)

before_start : (r s : Range) → before r s ≡ true → r.0 ≤ s.0
unfolding before
before_start r s h = ground arith

after_start : (r s : Range) → before r s ≡ false → s.0 ≤ r.0
unfolding before
after_start r s h = ground arith

starts_mono :
    (m n : ℕ) (ranges : List Range) → m ≤ n → All (λ s. n ≤ s.0) ranges → All (λ s. m ≤ s.0) ranges
starts_mono m n [] h later = tt
starts_mono m n (r ∷ ranges) h later = (omega (arith, later.0), starts_mono m n ranges h later.1)

insert_range-Sorted :
    (r : Range) (ranges : List Range) → Sorted ranges → Sorted (insert_range r ranges)
unfolding insert_range
insert_range-Sorted r [] h = (tt, tt)
insert_range-Sorted r (s ∷ ranges) h = elim (Bool-cases (before r s)) [
  | inl e ↦
      rw (e, insert_range)
        ((before_start r s e, starts_mono r.0 s.0 ranges (before_start r s e) h.0), h)
  | inr e ↦
      rw (e, insert_range)
        (
          All-insert_range (λ t. s.0 ≤ t.0) r ranges (after_start r s e) h.0,
          insert_range-Sorted r ranges h.1,
        )
]

pub sort_unstable-Sorted : (ranges : List Range) → Sorted (sort_unstable ranges)
unfolding sort_unstable
sort_unstable-Sorted [] = tt
sort_unstable-Sorted (r ∷ ranges) =
    insert_range-Sorted r (sort_unstable ranges) (sort_unstable-Sorted ranges)

pub All-append {ℓ κ} :
    {A : Type ℓ} (P : A → Type κ) (xs ys : List A) → All P xs → All P ys → All P (xs ++ ys)
All-append P [] ys h k = k
All-append P (x ∷ xs) ys h k = (h.0, All-append P xs ys h.1 k)

module _ (is_char : ℕ → Bool) (test : Bytes → Bool) (size : ℕ) where
  close_run-Within : (end : ℕ) (run : Bytes) → end ≤ size → Within size (close_run test end run)
  unfolding close_run
  close_run-Within end [] h = tt
  close_run-Within end (b ∷ run) h = elim (Bool-cases (test (b ∷ run))) [
    | inl e ↦ rw (e, close_run) ((omega arith, h), tt)
    | inr e ↦ rw (e, close_run) tt
  ]

  pub scan-Within :
      (i : ℕ) (run bytes : Bytes)
      → i + length bytes ≤ size
      → Within size (scan is_char test i run bytes)
  unfolding scan
  scan-Within i run [] h = close_run-Within i run (omega arith)
  scan-Within i run (b ∷ bytes) h = elim (Bool-cases (is_char b)) [
    | inl e ↦ rw (e, scan) (scan-Within (i + 1) (run ++ b ∷ []) bytes (omega arith))
    | inr e ↦
        rw (e, scan)
          (All-append (λ r. (r.0 ≤ r.1) × (r.1 ≤ size)) (close_run test i run) _
            (close_run-Within i run (omega arith)) (scan-Within (i + 1) [] bytes (omega arith)))
  ]
