-- ===== src/Retention/Latest.antt =====
-- `latest_by_author` of `release_decisions`: what the map holds after the loop over the keys.
use trail_stash.Base.{
  Bool-cases, ℕ, zero, suc, ◌≤◌, ◌≡◌, ◌⊎◌, inl, inr, refl, Bool, true, false, ◌||◌, Option, none,
  some, List, [], ◌∷◌, arith, Bytes, bytes_discrete, get_elem?, ltb, any, is_some_and, ite,
}
use trail_stash.HashMap.{HashMap, get, get-insert}
use trail_stash.Retention.Key.{FixKey}
use trail_stash.Retention.{raised, note_latest, latest_from, is_outdated}

-- Some key of the list is a newer fix of the author.
abbrev pub newer : Bytes → ℕ → List (Option FixKey) → Bool
newer a s = any (is_some_and (λ k. ite (bytes_discrete a k.author) (ltb s k.seq) false))

abbrev beats : ℕ → Option ℕ → Bool
beats s = is_some_and (λ latest. ltb s latest)

beats-note_latest :
    (a : Bytes) (s : ℕ) (m : HashMap Bytes ℕ) (k : FixKey)
    → beats s (get bytes_discrete a (note_latest m k))
      ≡ ite (bytes_discrete a k.author) (ltb s k.seq) false || beats s (get bytes_discrete a m)
unfolding note_latest
beats-note_latest a s m k = elim (bytes_discrete a k.author) [
  | yes p ↦
      ground (
        arith,
        get-insert bytes_discrete k.author a (raised (get bytes_discrete k.author m) k.seq) m,
      )
  | no p ↦
      ground (
        arith,
        get-insert bytes_discrete k.author a (raised (get bytes_discrete k.author m) k.seq) m,
      )
]

beats-latest_from :
    (a : Bytes) (s : ℕ) (m : HashMap Bytes ℕ) (ks : List (Option FixKey))
    → beats s (get bytes_discrete a (latest_from m ks))
      ≡ newer a s ks || beats s (get bytes_discrete a m)
unfolding latest_from
beats-latest_from a s m [] = refl
beats-latest_from a s m (none ∷ ks) = beats-latest_from a s m ks
beats-latest_from a s m (some k ∷ ks) =
    ground (arith, beats-latest_from a s (note_latest m k) ks, beats-note_latest a s m k)

-- The test against the map says whether a newer fix of the author is among the keys.
pub is_outdated-newer :
    (ks : List (Option FixKey)) (k : FixKey)
    → is_outdated (latest_from [] ks) (some k) ≡ newer k.author k.seq ks
unfolding is_outdated get
is_outdated-newer ks k = ground (arith, beats-latest_from k.author k.seq [] ks)

pub newer_elem :
    (a : Bytes) (s i : ℕ) (ks : List (Option FixKey)) (k : FixKey)
    → get_elem? ks i ≡ some (some k)
    → k.author ≡ a
    → newer a s ks ≡ false
    → k.seq ≤ s
newer_elem a s i [] k e p h = cc
newer_elem a s zero (o ∷ ks) k e p h = ground arith
newer_elem a s (suc i) (o ∷ ks) k e p h = newer_elem a s i ks k e p (ground arith)

newer_mono :
    (a : Bytes) (s t : ℕ) (ks : List (Option FixKey))
    → s ≤ t
    → newer a s ks ≡ false
    → newer a t ks ≡ false
newer_mono a s t [] h e = refl
newer_mono a s t (none ∷ ks) h e = newer_mono a s t ks h e
newer_mono a s t (some k ∷ ks) h e = ground (arith, newer_mono a s t ks)

-- A newest fix of an author.
pub record Best (a : Bytes) (ks : List (Option FixKey)) : Type 0 where
  pub index : ℕ
  pub key : FixKey
  pub found : get_elem? ks index ≡ some (some key)
  pub of_author : key.author ≡ a
  pub newest : newer a key.seq ks ≡ false

abbrev has_author : Bytes → List (Option FixKey) → Bool
has_author a = any (is_some_and (λ k. ite (bytes_discrete a k.author) true false))

abbrev Absent : Bytes → List (Option FixKey) → Type 0
Absent a ks = has_author a ks ≡ false

newer-Absent : (a : Bytes) (s : ℕ) (ks : List (Option FixKey)) → Absent a ks → newer a s ks ≡ false
newer-Absent a s [] h = refl
newer-Absent a s (none ∷ ks) h = newer-Absent a s ks h
newer-Absent a s (some k ∷ ks) h = ground (arith, newer-Absent a s ks)

has_author_elem :
    (ks : List (Option FixKey)) (i : ℕ) (k : FixKey)
    → get_elem? ks i ≡ some (some k)
    → has_author k.author ks ≡ true
has_author_elem [] i k e = cc
has_author_elem (o ∷ ks) zero k e = ground arith
has_author_elem (o ∷ ks) (suc i) k e = ground (arith, has_author_elem ks i k e)

Best-skip :
    (a : Bytes) (o : Option FixKey) (ks : List (Option FixKey))
    → Absent a (o ∷ [])
    → Absent a ks ⊎ Best a ks
    → Absent a (o ∷ ks) ⊎ Best a (o ∷ ks)
Best-skip a none ks h (inl absent) = inl absent
Best-skip a (some k) ks h (inl absent) = inl (ground arith)
Best-skip a o ks h (inr b) = inr (record {
  index = suc b.index;
  key = b.key;
  found = b.found;
  of_author = b.of_author;
  newest = ground (arith, newer-Absent a b.key.seq (o ∷ []) h, b.newest);
})

Best-here :
    (a : Bytes) (k : FixKey) (ks : List (Option FixKey))
    → a ≡ k.author
    → Absent a ks ⊎ Best a ks
    → Absent a (some k ∷ ks) ⊎ Best a (some k ∷ ks)
Best-here a k ks p (inl absent) = inr (record {
  index = 0;
  key = k;
  found = refl;
  of_author = ground arith;
  newest = ground (arith, newer-Absent a k.seq ks absent);
})
Best-here a k ks p (inr b) = elim (Bool-cases (ltb b.key.seq k.seq)) [
  | inl more ↦ inr (record {
    index = 0;
    key = k;
    found = refl;
    of_author = ground arith;
    newest = ground (arith, newer_mono a b.key.seq k.seq ks, b.newest);
  })
  | inr less ↦ inr (record {
    index = suc b.index;
    key = b.key;
    found = b.found;
    of_author = b.of_author;
    newest = ground (arith, b.newest);
  })
]

Best-cases : (a : Bytes) (ks : List (Option FixKey)) → Absent a ks ⊎ Best a ks
Best-cases a [] = inl refl
Best-cases a (none ∷ ks) = Best-skip a none ks refl (Best-cases a ks)
Best-cases a (some k ∷ ks) = elim (bytes_discrete a k.author) [
  | yes p ↦ Best-here a k ks p (Best-cases a ks)
  | no p ↦ Best-skip a (some k) ks (ground arith) (Best-cases a ks)
]

-- An author of whom a fix is there has a newest one.
pub Best-of :
    (ks : List (Option FixKey)) (i : ℕ) (k : FixKey)
    → get_elem? ks i ≡ some (some k)
    → Best k.author ks
Best-of ks i k e = elim (Best-cases k.author ks) [
  | inl absent ↦ absurd (cc (has_author_elem ks i k e))
  | inr b ↦ b
]
