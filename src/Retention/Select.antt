-- ===== src/Retention/Select.antt =====
-- What `release_decisions` of `rust/src/retention.rs` decides.
use mathlib.Core.List.{zip}
use trail_stash.Base.{
  sym, if◌then◌else◌, ◌∙◌, ℕ, zero, suc, ◌≤◌, ◌≡◌, refl, ap, ◌∙◌, fun_ext, Bool, true, false,
  Option, none, some, List, [], ◌∷◌, map, arith, get_elem?, is_some_and,
}
use trail_stash.Retention.Key.{FixKey, decode_fix_key}
use trail_stash.Retention.Latest.{newer, is_outdated-newer, newer_elem, Best-of}
use trail_stash.Retention.{
  RetentionPolicy, RetentionEntry, ReleaseReason, is_superseded, reason_of, is_expired, is_outdated,
  latest_from, release_decisions,
}

abbrev pub fix_keys : List RetentionEntry → List (Option FixKey)
fix_keys = map (λ e. decode_fix_key e.key)

-- An entry is superseded if it is a fix and a newer fix of its author is among the entries.
abbrev pub superseded_among : List RetentionEntry → RetentionEntry → Bool
superseded_among entries e =
    is_some_and (λ k. newer k.author k.seq (fix_keys entries)) (decode_fix_key e.key)

-- The decision on one entry, with no map of the latest.
abbrev pub decision :
    List RetentionEntry → RetentionPolicy → ℕ → RetentionEntry → Option ReleaseReason
decision entries policy now e =
    reason_of (superseded_among entries e) (is_expired policy e.written_ms now)

map-zip-map {ℓ κ μ} :
    {A : Type ℓ} {B : Type κ} {C : Type μ} (f : A → B) (g : A × B → C) (xs : List A)
    → map g (zip xs (map f xs)) ≡ map (λ x. g (x, f x)) xs
unfolding zip
map-zip-map f g [] = refl
map-zip-map f g (x ∷ xs) = ap (◌∷◌ (g (x, f x))) (map-zip-map f g xs)

is_outdated-superseded_among :
    (entries : List RetentionEntry) (o : Option FixKey)
    → is_outdated (latest_from [] (fix_keys entries)) o
      ≡ is_some_and (λ k. newer k.author k.seq (fix_keys entries)) o
unfolding is_outdated
is_outdated-superseded_among entries none = refl
is_outdated-superseded_among entries (some k) = is_outdated-newer (fix_keys entries) k

-- The map of the latest sequence numbers decides as the direct comparison of every entry with
-- every other does: one decision for each entry, in order.
pub release_decisions-decision :
    (entries : List RetentionEntry) (policy : RetentionPolicy) (now : ℕ)
    → release_decisions entries policy now ≡ map (decision entries policy now) entries
unfolding release_decisions
release_decisions-decision entries policy now =
    map-zip-map (λ e. decode_fix_key e.key) _ entries
    ∙ ap (λ f. map f entries)
        (fun_ext λ e.
          ap (λ b. reason_of b (is_expired policy e.written_ms now))
            (is_outdated-superseded_among entries (decode_fix_key e.key)))

get_elem?-map {ℓ κ} :
    {A : Type ℓ} {B : Type κ} (f : A → B) (xs : List A) (i : ℕ) (x : A)
    → get_elem? xs i ≡ some x
    → get_elem? (map f xs) i ≡ some (f x)
get_elem?-map f [] i x e = cc
get_elem?-map f (y ∷ xs) zero x e = cc
get_elem?-map f (y ∷ xs) (suc i) x e = get_elem?-map f xs i x e

get_elem?-map_inv {ℓ κ} :
    {A : Type ℓ} {B : Type κ} (f : A → B) (xs : List A) (i : ℕ) (y : B)
    → get_elem? (map f xs) i ≡ some y
    → (x : A) × (get_elem? xs i ≡ some x) × (f x ≡ y)
get_elem?-map_inv f [] i y e = cc
get_elem?-map_inv f (x ∷ xs) zero y e = (x, refl, cc)
get_elem?-map_inv f (x ∷ xs) (suc i) y e = get_elem?-map_inv f xs i y e

-- The entry at an index is a fix of this key.
pub record FixAt (entries : List RetentionEntry) (i : ℕ) (k : FixKey) : Type 0 where
  pub entry : RetentionEntry
  pub found : get_elem? entries i ≡ some entry
  pub decoded : decode_fix_key entry.key ≡ some k

abbrev pub is_superseded_at : List (Option ReleaseReason) → ℕ → Bool
is_superseded_at decisions i =
    is_some_and (λ d. is_some_and is_superseded d) (get_elem? decisions i)

module _ (entries : List RetentionEntry) (policy : RetentionPolicy) (now : ℕ) where
  FixAt-key :
      (i : ℕ) (k : FixKey) → FixAt entries i k → get_elem? (fix_keys entries) i ≡ some (some k)
  FixAt-key i k at =
      get_elem?-map (λ e. decode_fix_key e.key) entries i at.entry at.found ∙ ap some at.decoded

  is_superseded-reason_of : (b c : Bool) → is_some_and is_superseded (reason_of b c) ≡ b
  is_superseded-reason_of true true = refl
  is_superseded-reason_of true false = refl
  is_superseded-reason_of false true = refl
  is_superseded-reason_of false false = refl

  reason_of-false :
      (c : Bool) → some (reason_of false c) ≡ some (if c then some ReleaseReason.expired else none)
  reason_of-false true = refl
  reason_of-false false = refl

  superseded-newer :
      (i : ℕ) (k : FixKey)
      → FixAt entries i k
      → is_superseded_at (release_decisions entries policy now) i
        ≡ newer k.author k.seq (fix_keys entries)
  superseded-newer i k at =
      rw
        (
          release_decisions-decision entries policy now,
          get_elem?-map (decision entries policy now) entries i at.entry at.found,
          at.decoded,
        )
        (is_superseded-reason_of _ _)

  -- For every fix among the entries, some fix of the same author with a sequence number that is no lower
  -- is among them and is not superseded.
  pub latest_not_superseded :
      (i : ℕ) (k : FixKey)
      → FixAt entries i k
      → (j : ℕ) × (latest : FixKey) × FixAt entries j latest
        × (latest.author ≡ k.author)
        × (k.seq ≤ latest.seq)
        × (is_superseded_at (release_decisions entries policy now) j ≡ false)
  latest_not_superseded i k at =
      let b = Best-of (fix_keys entries) i k (FixAt-key i k at) in
      let (e, found, decoded) =
        get_elem?-map_inv (λ e. decode_fix_key e.key) entries b.index (some b.key) b.found in
      let at' : FixAt entries b.index b.key = record {
        entry = e;
        found = found;
        decoded = decoded;
      } in
      (
        b.index,
        b.key,
        at',
        b.of_author,
        newer_elem k.author b.key.seq i (fix_keys entries) k (FixAt-key i k at) refl b.newest,
        superseded-newer b.index b.key at'
            ∙ ap (λ a. newer a b.key.seq (fix_keys entries)) b.of_author
            ∙ b.newest,
      )

  not-newer :
      (i j : ℕ) (k l : FixKey)
      → FixAt entries i k
      → FixAt entries j l
      → k.author ≡ l.author
      → is_superseded_at (release_decisions entries policy now) j ≡ false
      → k.seq ≤ l.seq
  not-newer i j k l p q same h =
      newer_elem l.author l.seq i (fix_keys entries) k (FixAt-key i k p) same
        (sym (superseded-newer j l q) ∙ h)

  -- Two fixes of one author that are both not superseded have the same sequence number.
  pub not_superseded_unique :
      (i j : ℕ) (k l : FixKey)
      → FixAt entries i k
      → FixAt entries j l
      → k.author ≡ l.author
      → is_superseded_at (release_decisions entries policy now) i ≡ false
      → is_superseded_at (release_decisions entries policy now) j ≡ false
      → k.seq ≡ l.seq
  not_superseded_unique i j k l p q same u v =
      omega (arith, not-newer i j k l p q same v, not-newer j i l k q p (sym same) u)

  -- An entry whose key is no fix key is never superseded, and is released exactly when its age
  -- exceeds the window: no key is exempt from the window, control keys included.
  pub unparsed_by_window :
      (i : ℕ) (e : RetentionEntry)
      → get_elem? entries i ≡ some e
      → decode_fix_key e.key ≡ none
      → get_elem? (release_decisions entries policy now) i
        ≡ some (if is_expired policy e.written_ms now then some ReleaseReason.expired else none)
  unparsed_by_window i e found undecoded =
      rw
        (
          release_decisions-decision entries policy now,
          get_elem?-map (decision entries policy now) entries i e found,
          undecoded,
        )
        (reason_of-false (is_expired policy e.written_ms now))
