-- ===== src/HashMap/Distinct.antt =====
-- A map holds every key once: what `HashMap` gives, stated of the list that stands for it.
use trail_stash.Base.{
  inl, inr, Bool-cases, inr, inl, Bool-cases, ◌≡◌, refl, Bool, true, ◌||◌, none, [], ◌∷◌, arith,
  any, is_some_and,
}
use trail_stash.HashMap.{HashMap, values, get, insert, remove, get-insert, get-remove}

module _ {K V : Type 0} (dec : Discrete K) where
  abbrev pub Distinct : HashMap K V → Type 0
  Distinct [] = Unit
  Distinct ((k, v) ∷ m) = (get dec k m ≡ none) × Distinct m

  pub insert-Distinct : (k : K) (v : V) (m : HashMap K V) → Distinct m → Distinct (insert dec k v m)
  unfolding insert get
  insert-Distinct k v [] d = (refl, tt)
  insert-Distinct k v ((j, w) ∷ m) d =
      ground (arith, insert-Distinct k v m d.1, get-insert dec k j v m)

  pub remove-Distinct : (k : K) (m : HashMap K V) → Distinct m → Distinct (remove dec k m)
  unfolding remove
  remove-Distinct k [] d = tt
  remove-Distinct k ((j, w) ∷ m) d = ground (arith, remove-Distinct k m d.1, get-remove dec k j m)

  pub remove-insert :
      (k : K) (v : V) (m : HashMap K V) → remove dec k (insert dec k v m) ≡ remove dec k m
  unfolding remove insert
  remove-insert k v [] = ground arith
  remove-insert k v ((j, w) ∷ m) = ground (arith, remove-insert k v m)

  pub remove_absent : (k : K) (m : HashMap K V) → get dec k m ≡ none → remove dec k m ≡ m
  unfolding remove get
  remove_absent k [] h = refl
  remove_absent k ((j, w) ∷ m) h = ground (arith, remove_absent k m)

  -- A search of the values, the value of one key apart.
  pub any-values :
      (p : V → Bool) (k : K) (m : HashMap K V)
      → Distinct m
      → any p (values m) ≡ is_some_and p (get dec k m) || any p (values (remove dec k m))
  unfolding get remove
  any-values p k [] d = refl
  any-values p k ((j, w) ∷ m) d = ground (arith, any-values p k m d.1, remove_absent k m)

  pub any-values-insert :
      (p : V → Bool) (k : K) (v : V) (m : HashMap K V)
      → Distinct m
      → any p (values (insert dec k v m)) ≡ p v || any p (values (remove dec k m))
  any-values-insert p k v m d = ground (
    arith,
    any-values p k (insert dec k v m) (insert-Distinct k v m d),
    get-insert dec k k v m,
    remove-insert k v m,
  )

  -- A value that passes is one that some key reads.
  pub any-values-get :
      (p : V → Bool) (m : HashMap K V)
      → Distinct m
      → any p (values m) ≡ true
      → (k : K) × (is_some_and p (get dec k m) ≡ true)
  unfolding get
  any-values-get p [] d h = cc
  any-values-get p ((j, w) ∷ m) d h = elim (Bool-cases (p w)) [
    | inl e ↦ (j, ground arith)
    | inr e ↦ let (k, found) = any-values-get p m d.1 (ground arith) in (k, ground (arith, d.0))
  ]
