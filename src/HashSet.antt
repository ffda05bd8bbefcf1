-- ===== src/HashSet.antt =====
-- `std::collections::HashSet` as a list over elements with a decidable equality, in an order that
-- nothing relies on. `insert` and `remove` also say whether they changed the set.
use trail_stash.Base.{
  is_empty, ◌≡◌, refl, ap, List, [], ◌∷◌, Bool, true, false, ite, if_pos, if_neg, arith,
  if◌then◌else◌,
}

abbrev pub HashSet {ℓ} : Type ℓ → Type ℓ
HashSet K = List K

module _ {ℓ} {K : Type ℓ} (dec : Discrete K) where
  unfoldable pub contains : K → HashSet K → Bool
  contains k [] = false
  contains k (j ∷ s) = ite (dec k j) true (contains k s)

  unfoldable pub insert : K → HashSet K → HashSet K × Bool
  insert k s = if contains k s then (s, false) else (k ∷ s, true)

  unfoldable pub erase : K → HashSet K → HashSet K
  erase k [] = []
  erase k (j ∷ s) = let rest = erase k s in ite (dec k j) rest (j ∷ rest)

  unfoldable pub remove : K → HashSet K → HashSet K × Bool
  remove k s = (erase k s, contains k s)

  pub contains-insert :
      (k j : K) (s : HashSet K) → contains j (insert k s).0 ≡ ite (dec j k) true (contains j s)
  unfolding insert contains
  contains-insert k j s = ground arith

  pub contains-erase :
      (k j : K) (s : HashSet K) → contains j (erase k s) ≡ ite (dec j k) false (contains j s)
  unfolding contains erase
  contains-erase k j [] = ground arith
  contains-erase k j (i ∷ s) = elim (dec k i) [
    | yes p ↦ rw (if_pos _ p) (ground (arith, contains-erase k j s))
    | no p ↦ rw (if_neg _ p) (ground (arith, contains-erase k j s))
  ]

  -- A set without elements is the empty list.
  pub contains-nil : (s : HashSet K) → ((k : K) → contains k s ≡ false) → s ≡ []
  unfolding contains
  contains-nil [] h = refl
  contains-nil (j ∷ s) h = ground (arith, h j)

  pub erase_absent : (k : K) (s : HashSet K) → contains k s ≡ false → erase k s ≡ s
  unfolding contains erase
  erase_absent k [] h = refl
  erase_absent k (j ∷ s) h = elim (dec k j) [
    | yes p ↦ absurd (ground arith)
    | no p ↦ rw (if_neg _ p) (ap (◌∷◌ j) (erase_absent k s (ground arith)))
  ]

  pub contains_empty : (k : K) (s : HashSet K) → is_empty s ≡ true → contains k s ≡ false
  unfolding contains
  contains_empty k [] h = refl
  contains_empty k (j ∷ s) h = cc
