-- ===== src/LogRedaction/Cover.antt =====
-- What a redacted line of `rust/src/log_redaction.rs` consists of.
use mathlib.Core.List.{append-nil}
use trail_stash.Base.{
  ℕ, zero, suc, ◌+◌, ◌-◌, ◌≤◌, ◌<◌, ◌≡◌, refl, sym, ap, ap₂, ◌∙◌, Bool, true, false, ◌&&◌, Option,
  none, some, List, [], ◌∷◌, ◌++◌, Bytes, length, take, drop, any, All, leb, ltb, arith,
  if◌then◌else◌, Bool-cases, inl, inr, max,
}
use trail_stash.LogRedaction.{Range, redacted, slice, splice}

-- Whether a position lies in one of the ranges.
abbrev pub covered : ℕ → List Range → Bool
covered i = any (λ r. leb r.0 i && ltb i r.1)

-- The bytes, the first of which is at position `i`, that lie in no range.
unfoldable pub uncovered : List Range → ℕ → Bytes → Bytes
uncovered ranges i [] = []
uncovered ranges i (b ∷ bytes) =
    let rest = uncovered ranges (suc i) bytes in if covered i ranges then rest else b ∷ rest

-- A line in pieces: bytes that are copied, and marks.
abbrev pub flatten : List (Option Bytes) → Bytes
flatten [] = []
flatten (none ∷ pieces) = redacted ++ flatten pieces
flatten (some bytes ∷ pieces) = bytes ++ flatten pieces

abbrev pub copies : List (Option Bytes) → Bytes
copies [] = []
copies (none ∷ pieces) = copies pieces
copies (some bytes ∷ pieces) = bytes ++ copies pieces

uncovered_nil : (ranges : List Range) (i : ℕ) → uncovered ranges i [] ≡ []
unfolding uncovered
uncovered_nil ranges i = refl

pub uncovered_none : (i : ℕ) (xs : Bytes) → uncovered [] i xs ≡ xs
unfolding uncovered
uncovered_none i [] = refl
uncovered_none i (x ∷ xs) = ap (◌∷◌ x) (uncovered_none (suc i) xs)

uncovered-append :
    (ranges : List Range) (i : ℕ) (xs ys : Bytes)
    → uncovered ranges i (xs ++ ys) ≡ uncovered ranges i xs ++ uncovered ranges (i + length xs) ys
unfolding uncovered
uncovered-append ranges i [] ys = ap (λ j. uncovered ranges j ys) (omega arith)
uncovered-append ranges i (x ∷ xs) ys =
    let next : uncovered ranges (suc i + length xs) ys ≡ uncovered ranges (i + suc (length xs)) ys =
      ap (λ j. uncovered ranges j ys) (omega arith) in
    ground (arith, uncovered-append ranges (suc i) xs ys, next)

weaken_late :
    (ranges : List Range) (i n : ℕ)
    → All (λ r. i + suc n ≤ r.0) ranges
    → All (λ r. suc i + n ≤ r.0) ranges × (covered i ranges ≡ false)
weaken_late [] i n h = (tt, refl)
weaken_late (r ∷ ranges) i n h =
    let rest = weaken_late ranges i n h.1 in
    ((omega (arith, h.0), rest.0), ground (arith, rest.1, h.0))

uncovered_late :
    (ranges : List Range) (i : ℕ) (xs : Bytes)
    → All (λ r. i + length xs ≤ r.0) ranges
    → uncovered ranges i xs ≡ xs
unfolding uncovered
uncovered_late ranges i [] h = refl
uncovered_late ranges i (x ∷ xs) h =
    let w = weaken_late ranges i (length xs) h in
    ground (arith, w.1, uncovered_late ranges (suc i) xs w.0)

module _ (start end : ℕ) (ranges : List Range) where
  uncovered_inside :
      (i : ℕ) (xs : Bytes)
      → start ≤ i
      → i + length xs ≤ end
      → uncovered ((start, end) ∷ ranges) i xs ≡ []
  unfolding uncovered
  uncovered_inside i [] h k = refl
  uncovered_inside i (x ∷ xs) h k = ground (arith, uncovered_inside (suc i) xs)

  uncovered_past :
      (i : ℕ) (xs : Bytes)
      → end ≤ i
      → uncovered ((start, end) ∷ ranges) i xs ≡ uncovered ranges i xs
  unfolding uncovered
  uncovered_past i [] h = refl
  uncovered_past i (x ∷ xs) h = ground (arith, uncovered_past (suc i) xs)

length-take : (k : ℕ) (xs : Bytes) → k ≤ length xs → length (take k xs) ≡ k
length-take zero xs h = refl
length-take (suc k) [] h = absurd (omega arith)
length-take (suc k) (x ∷ xs) h = omega (arith, length-take k xs (omega arith))

length-drop : (k : ℕ) (xs : Bytes) → k ≤ length xs → length (drop k xs) + k ≡ length xs
length-drop zero xs h = omega arith
length-drop (suc k) [] h = absurd (omega arith)
length-drop (suc k) (x ∷ xs) h = omega (arith, length-drop k xs (omega arith))

take-drop : (k : ℕ) (xs : Bytes) → take k xs ++ drop k xs ≡ xs
take-drop zero xs = refl
take-drop (suc k) [] = refl
take-drop (suc k) (x ∷ xs) = ap (◌∷◌ x) (take-drop k xs)

drop_nil : (k : ℕ) → drop {A = ℕ} k [] ≡ []
drop_nil zero = refl
drop_nil (suc k) = refl

drop-drop : (a k b : ℕ) (xs : Bytes) → a + k ≡ b → drop k (drop a xs) ≡ drop b xs
drop-drop zero k b xs e = ap (λ j. drop j xs) (omega (arith, e))
drop-drop (suc a) k zero xs e = absurd (omega arith)
drop-drop (suc a) k (suc b) [] e = drop_nil k
drop-drop (suc a) k (suc b) (x ∷ xs) e = drop-drop a k b xs (omega arith)

drop-slice : (a b : ℕ) (xs : Bytes) → a ≤ b → slice a b xs ++ drop b xs ≡ drop a xs
drop-slice a b xs h =
    ap (◌++◌ (slice a b xs)) (sym (drop-drop a (b - a) b xs (omega arith)))
    ∙ take-drop (b - a) (drop a xs)

length-slice : (a b : ℕ) (xs : Bytes) → a ≤ b → b ≤ length xs → length (slice a b xs) ≡ b - a
length-slice a b xs h k =
    length-take (b - a) (drop a xs) (omega (arith, length-drop a xs (omega arith)))

-- Ranges in the order of their starts, each within a line of so many bytes.
abbrev pub Sorted : List Range → Type 0
Sorted [] = Unit
Sorted (r ∷ ranges) = All (λ s. r.0 ≤ s.0) ranges × Sorted ranges

abbrev pub Within : ℕ → List Range → Type 0
Within size = All (λ r. (r.0 ≤ r.1) × (r.1 ≤ size))

-- The pieces of a redacted line.
unfoldable pub pieces_of : Bytes → ℕ → List Range → List (Option Bytes)
pieces_of input copied [] = some (drop copied input) ∷ []
pieces_of input copied ((start, end) ∷ ranges) = elim (leb end copied) [
  | true ↦ pieces_of input copied ranges
  | false ↦ some (slice copied (max start copied) input) ∷ none ∷ pieces_of input end ranges
]

at_least_mono :
    (m n : ℕ) (ranges : List Range) → m ≤ n → All (λ s. n ≤ s.0) ranges → All (λ s. m ≤ s.0) ranges
at_least_mono m n [] h all_of = tt
at_least_mono m n (r ∷ ranges) h all_of =
    (omega (arith, all_of.0), at_least_mono m n ranges h all_of.1)

module _ (input : Bytes) where
  pub splice-pieces_of :
      (copied : ℕ) (ranges : List Range)
      → splice input copied ranges ≡ flatten (pieces_of input copied ranges)
  unfolding splice pieces_of
  splice-pieces_of copied [] = sym (append-nil (drop copied input))
  splice-pieces_of copied ((start, end) ∷ ranges) = elim (Bool-cases (leb end copied)) [
    | inl e ↦ rw (e, splice, pieces_of) (splice-pieces_of copied ranges)
    | inr e ↦ rw (e, splice, pieces_of, splice-pieces_of end ranges) refl
  ]

  module _ (copied start end : ℕ) (ranges : List Range) (later : All (λ s. start ≤ s.0) ranges)
      (p : start ≤ end) (q : copied ≤ end) (r : end ≤ length input) where
    abbrev from : ℕ
    from = max start copied

    abbrev with_range : List Range
    with_range = (start, end) ∷ ranges

    uncovered_front :
        uncovered with_range copied (slice copied from input) ≡ slice copied from input
    uncovered_front = elim (Bool-cases (leb start copied)) [
      | inl e ↦
          let zero_left : from - copied ≡ 0 = ground arith in
          let none_left : slice copied from input ≡ [] =
            ap (λ k. take k (drop copied input)) zero_left in
          rw none_left (uncovered_nil with_range copied)
      | inr e ↦
          let below : copied < start = ground arith in
          let up_to : copied + length (slice copied from input) ≡ start =
            omega (arith, length-slice copied from input (omega arith) (omega arith)) in
          uncovered_late with_range copied (slice copied from input)
            (at_least_mono _ start with_range (omega (arith, up_to)) (omega arith, later))
    ]

    -- A range that ends later: what lies before it, and what it covers.
    uncovered_split :
        uncovered with_range copied (drop copied input)
        ≡ slice copied from input ++ uncovered ranges end (drop end input)
    uncovered_split =
        let a = slice copied from input in
        let b = slice from end input in
        let c = drop end input in
        let whole : drop copied input ≡ a ++ (b ++ c) = sym (
          ap (◌++◌ a) (drop-slice from end input (omega arith))
          ∙ drop-slice copied from input (omega arith)) in
        let to_from : copied + length a ≡ from =
          omega (arith, length-slice copied from input (omega arith) (omega arith)) in
        let to_end : from + length b ≡ end =
          omega (arith, length-slice from end input (omega arith) (omega arith)) in
        let inner : uncovered with_range from (b ++ c) ≡ uncovered ranges end c =
          uncovered-append with_range from b c
          ∙ ap₂ ◌++◌
              (uncovered_inside start end ranges from b (omega arith) (omega (arith, to_end)))
              (ap (λ j. uncovered with_range j c) to_end
                ∙ uncovered_past start end ranges end c (omega arith)) in
        ap (uncovered with_range copied) whole
        ∙ uncovered-append with_range copied a (b ++ c)
        ∙ ap₂ ◌++◌ uncovered_front (ap (λ j. uncovered with_range j (b ++ c)) to_from ∙ inner)

  pub copies-pieces_of :
      (copied : ℕ) (ranges : List Range)
      → copied ≤ length input
      → Sorted ranges
      → Within (length input) ranges
      → copies (pieces_of input copied ranges) ≡ uncovered ranges copied (drop copied input)
  unfolding pieces_of
  copies-pieces_of copied [] h s w =
      append-nil (drop copied input) ∙ sym (uncovered_none copied (drop copied input))
  copies-pieces_of copied ((start, end) ∷ ranges) h s w = elim (Bool-cases (leb end copied)) [
    | inl e ↦
        rw (e, pieces_of)
          (copies-pieces_of copied ranges h s.1 w.1
            ∙ sym (uncovered_past start end ranges copied (drop copied input) (ground arith)))
    | inr e ↦
        rw (e, pieces_of)
          (ap (◌++◌ (slice copied (max start copied) input))
              (copies-pieces_of end ranges w.0.1 s.1 w.1)
            ∙ sym (uncovered_split copied start end ranges s.0 w.0.0 (ground arith) w.0.1))
  ]
