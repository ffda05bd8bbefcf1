-- ===== src/Node/Sweep/Order.antt =====
-- The order in which the replica of `rust/src/node.rs` lists the records of a namespace, which a sweep does not depend
-- on.
use mathlib.Core.List.{Perm, Permᴰ, zip}
use mathlib.Core.List.Perm as ListPerm
use mathlib.Core.Logic.{∥∥₁_elim}
use trail_stash.Base.{
  false, sym, subst, ℕ, Bool, true, Option, List, [], ◌∷◌, bytes_discrete, ◌≡◌, refl, ap, ◌∙◌,
  arith, any, length, map, fun_ext, is_some_and,
}
use trail_stash.Retention.{ReleaseReason, RetentionEntry, RetentionPolicy, is_expired, reason_of}
use trail_stash.Retention.Select.{decision, fix_keys, release_decisions-decision}
use trail_stash.Retention.Key.{decode_fix_key}
use trail_stash.Content.{
  ContentHash, ContentIndex, NamespaceId, is_tracked, is_tracked_for, tracked_count,
}
use trail_stash.Content.Invariant.{IsValid as IsConsistent}
use trail_stash.Content.Laws.{is_tracked_iff}
use trail_stash.Iroh.{Iroh, DocEntry}
use trail_stash.Node.{StashNode}
use trail_stash.Node.Linked.{IsValid}
use trail_stash.Node.Prune.{PruneCandidate, candidate_of, retention_entry, decided, prune_namespace}
use trail_stash.Node.Release.{is_needed, is_dropped, prune_namespace_effect}
use trail_stash.Node.Sweep.{prune_namespace-IsValid}
use trail_stash.Node.Sweep.Answer.{length-remove, prune_namespace-answer}
use trail_stash.HashMap.{HashMap, get, remove, get-remove}
use trail_stash.HashMap.Distinct.{Distinct, remove-Distinct}

abbrev is_there : {V : Type 0} → Option V → Bool
is_there = is_some_and (λ v. true)

any-Permᴰ : {A : Type 0} (p : A → Bool) {xs ys : List A} → Permᴰ xs ys → any p xs ≡ any p ys
any-Permᴰ p Permᴰ.nil = refl
any-Permᴰ p (Permᴰ.cons e h) = ground (arith, e, any-Permᴰ p h)
any-Permᴰ p (Permᴰ.swap e f) = ground (arith, e, f)
any-Permᴰ p (Permᴰ.trans g h) = any-Permᴰ p g ∙ any-Permᴰ p h

any-Perm : {A : Type 0} (p : A → Bool) (xs ys : List A) → Perm xs ys → any p xs ≡ any p ys
any-Perm p xs ys h = ∥∥₁_elim h (hlevel) (any-Permᴰ p)

-- What is decided on an entry does not depend on the order of the others.
decision-Perm :
    (es es' : List RetentionEntry) (policy : RetentionPolicy) (now : ℕ)
    → Perm es es'
    → decision es policy now ≡ decision es' policy now
decision-Perm es es' policy now h = fun_ext λ e.
    ap (λ f. reason_of (is_some_and f (decode_fix_key e.key)) (is_expired policy e.written_ms now))
      (fun_ext λ k. any-Perm _ (fix_keys es) (fix_keys es') (ListPerm.map _ h))

zip-map-map :
    {A B C : Type 0} (f : B → C) (g : A → B) (xs : List A)
    → zip xs (map f (map g xs)) ≡ map (λ x. (x, f (g x))) xs
unfolding zip
zip-map-map f g [] = refl
zip-map-map f g (x ∷ xs) = ap (◌∷◌ (x, f (g x))) (zip-map-map f g xs)

-- Maps with the same keys have the same size.
length-same_keys :
    {V : Type 0} (m m' : HashMap ContentHash V)
    → Distinct bytes_discrete m
    → Distinct bytes_discrete m'
    → ((h : ContentHash) → is_there (get bytes_discrete h m) ≡ is_there (get bytes_discrete h m'))
    → length m ≡ length m'
unfolding get
length-same_keys [] [] d d' same = refl
length-same_keys [] ((k, v) ∷ m') d d' same = absurd (ground (arith, same k))
length-same_keys ((k, v) ∷ m) m' d d' same = ground (
  arith,
  same k,
  length-remove k m' d',
  length-same_keys m (remove bytes_discrete k m') d.1 (remove-Distinct bytes_discrete k m' d')
      (λ h. ground (arith, same h, get-remove bytes_discrete k h m', d.0)),
)

Bool_iff : (a b : Bool) → (a ≡ true → b ≡ true) → (b ≡ true → a ≡ true) → a ≡ b
Bool_iff true b f g = sym (f refl)
Bool_iff false true f g = g refl
Bool_iff false false f g = refl

-- Two consistent indices with the same references track the same number of hashes.
pub tracked_count-same :
    (index index' : ContentIndex)
    → IsConsistent index
    → IsConsistent index'
    → ((ns : NamespaceId) (h : ContentHash)
        → is_tracked_for ns h index ≡ is_tracked_for ns h index')
    → tracked_count index ≡ tracked_count index'
unfolding tracked_count is_tracked
tracked_count-same index index' v v' same =
    length-same_keys index.state index'.state v.distinct_state v'.distinct_state (λ h.
      Bool_iff _ _
        (λ e.
          let (ns, f) = (is_tracked_iff h index v).0 e in
          (is_tracked_iff h index' v').1 (ns, sym (same ns h) ∙ f))
        (λ e.
          let (ns, f) = (is_tracked_iff h index' v').0 e in
          (is_tracked_iff h index v).1 (ns, same ns h ∙ f)))

module _ (w : Iroh) (now : ℕ) where
  -- The candidates, each with what is decided on it.
  abbrev pairs :
      (RetentionEntry → Option ReleaseReason)
      → List PruneCandidate
      → List (PruneCandidate × Option ReleaseReason)
  pairs d = map (λ c. (c, d (retention_entry c)))

  decided-decision :
      (entries : List DocEntry) (node : StashNode w)
      → decided w now entries node
        ≡ pairs
            (decision (map retention_entry (map candidate_of entries)) node.retention now)
            (map candidate_of entries)
  unfolding decided
  decided-decision entries node =
      let candidates = map candidate_of entries in
      ap (zip candidates)
        (release_decisions-decision (map retention_entry candidates) node.retention now)
      ∙ zip-map-map (decision (map retention_entry candidates) node.retention now) retention_entry
          candidates

  decided-Perm :
      (entries entries' : List DocEntry) (node : StashNode w)
      → Perm entries entries'
      → Perm (decided w now entries node) (decided w now entries' node)
  decided-Perm entries entries' node h =
      let candidates = ListPerm.map candidate_of h in
      let d = decision (map retention_entry (map candidate_of entries)) node.retention now in
      let same = decision-Perm _ _ node.retention now (ListPerm.map retention_entry candidates) in
      subst (λ l. Perm (decided w now entries node) l)
        (ap (λ d'. pairs d' (map candidate_of entries')) same
          ∙ sym (decided-decision entries' node))
        (subst (λ l. Perm l (pairs d (map candidate_of entries')))
          (sym (decided-decision entries node)) (ListPerm.map _ candidates))

  swept_same :
      (ns : NamespaceId) (entries entries' : List DocEntry) (node : StashNode w)
      → IsValid w node
      → Perm entries entries'
      → (ns' : NamespaceId) (h : ContentHash)
      → is_tracked_for ns' h (prune_namespace w now ns entries node).0.content
        ≡ is_tracked_for ns' h (prune_namespace w now ns entries' node).0.content
  swept_same ns entries entries' node v p ns' h =
      let decisions = decided-Perm entries entries' node p in
      let needed : is_needed h (decided w now entries node)
          ≡ is_needed h (decided w now entries' node) =
        any-Perm _ _ _ decisions in
      let dropped : is_dropped h (decided w now entries node)
          ≡ is_dropped h (decided w now entries' node) =
        any-Perm _ _ _ decisions in
      ground (
        arith,
        needed,
        dropped,
        prune_namespace_effect w now ns entries node ns' h v,
        prune_namespace_effect w now ns entries' node ns' h v,
      )

  -- The sweep of a namespace of a valid node does not depend on the order in which the replica lists the records: it
  -- leaves the same references and answers the same number.
  pub prune_namespace_order :
      (ns : NamespaceId) (entries entries' : List DocEntry) (node : StashNode w)
      → IsValid w node
      → Perm entries entries'
      → ((ns' : NamespaceId) (h : ContentHash)
          → is_tracked_for ns' h (prune_namespace w now ns entries node).0.content
            ≡ is_tracked_for ns' h (prune_namespace w now ns entries' node).0.content)
        × ((prune_namespace w now ns entries node).1 ≡ (prune_namespace w now ns entries' node).1)
  prune_namespace_order ns entries entries' node v p =
      let same = swept_same ns entries entries' node v p in
      (
        same,
        omega (
          arith,
          prune_namespace-answer w now ns entries node v,
          prune_namespace-answer w now ns entries' node v,
          tracked_count-same (prune_namespace w now ns entries node).0.content
              (prune_namespace w now ns entries' node).0.content
              (prune_namespace-IsValid w now ns entries node v).valid
              (prune_namespace-IsValid w now ns entries' node v).valid same,
        ),
      )
