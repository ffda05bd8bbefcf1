-- ===== src/Node/Sweep/Answer.antt =====
-- The number that a sweep of `rust/src/node.rs` answers.
use trail_stash.Base.{
  ℕ, ◌+◌, List, suc, true, false, [], ◌∷◌, bytes_discrete, ◌≡◌, refl, inl, inr, Bool-cases, arith,
  length, is_some_and, if◌then◌else◌,
}
use trail_stash.HashMap.{HashMap, get, remove}
use trail_stash.HashMap.Distinct.{Distinct}
use trail_stash.Content.{ContentHash, NamespaceId, ContentIndex, forget, is_tracked, tracked_count}
use trail_stash.Content.Invariant.{IsValid as IsConsistent}
use trail_stash.HashSet
use trail_stash.Iroh.{Iroh, DocEntry}
use trail_stash.Node.{StashNode}
use trail_stash.Node.Linked.{IsValid, forget_one-IsValid}
use trail_stash.Node.Prune.{forget_one, forget_all, prune_namespace, prune_all, prune_once}
use trail_stash.Node.Serve.{content_stats}
use trail_stash.Node.Sweep.{prune_namespace-IsValid}
use trail_stash.Result.{Result-cases, ok}
use trail_stash.Subscriptions.{known_namespaces}
use trail_stash.Content.Laws.{forget_last_iff, is_tracked_iff}

pub length-remove :
    {V : Type 0} (h : ContentHash) (m : HashMap ContentHash V)
    → Distinct bytes_discrete m
    → length m ≡ (
        if is_some_and (λ _. true) (get bytes_discrete h m)
        then suc (length (remove bytes_discrete h m))
        else length (remove bytes_discrete h m))
unfolding get remove
length-remove h [] d = refl
length-remove h ((k, v) ∷ m) d = ground (arith, length-remove h m d.1, d.0)

forget-kept :
    (ns : NamespaceId) (hash : ContentHash) (index : ContentIndex)
    → (forget ns hash index).1 ≡ false
    → (forget ns hash index).0.state ≡ index.state
unfolding forget
forget-kept ns hash index e = ground (arith, e)

forget-dropped :
    (ns : NamespaceId) (hash : ContentHash) (index : ContentIndex)
    → (forget ns hash index).1 ≡ true
    → (forget ns hash index).0.state ≡ remove bytes_discrete hash index.state
unfolding forget
forget-dropped ns hash index e = ground (arith, e)

-- A reference that is forgotten takes one hash from the index if it was the last, and none otherwise.
tracked_count-forget :
    (ns : NamespaceId) (hash : ContentHash) (index : ContentIndex)
    → IsConsistent index
    → tracked_count index ≡ (
        if (forget ns hash index).1
        then suc (tracked_count (forget ns hash index).0)
        else tracked_count (forget ns hash index).0)
unfolding tracked_count is_tracked
tracked_count-forget ns hash index v = elim (Bool-cases (forget ns hash index).1) [
  | inr e ↦ ground (arith, e, forget-kept ns hash index)
  | inl e ↦
      let (named, _) = (forget_last_iff ns hash index v).0 e in
      let there = (is_tracked_iff hash index v).1 (ns, named) in
      ground (
        arith,
        e,
        there,
        forget-dropped ns hash index,
        length-remove hash index.state v.distinct_state,
      )
]

module _ (w : Iroh) where
  forget_one-answer :
      (ns : NamespaceId) (hash : ContentHash) (node : StashNode w)
      → IsValid w node
      → tracked_count node.content ≡ (
          if (forget_one w ns hash node).1
          then suc (tracked_count (forget_one w ns hash node).0.content)
          else tracked_count (forget_one w ns hash node).0.content)
  unfolding forget_one
  forget_one-answer ns hash node v =
      ground (arith, tracked_count-forget ns hash node.content v.valid)

  forget_all-answer :
      (ns : NamespaceId) (hashes : List ContentHash) (node : StashNode w)
      → IsValid w node
      → tracked_count node.content
        ≡ (forget_all w ns hashes node).1 + tracked_count (forget_all w ns hashes node).0.content
  unfolding forget_all
  forget_all-answer ns [] node v = omega arith
  forget_all-answer ns (hash ∷ hashes) node v =
      let node' = (forget_one w ns hash node).0 in
      ground (
        arith,
        forget_one-answer ns hash node v,
        forget_all-answer ns hashes node' (forget_one-IsValid w ns hash node v),
      )

  pub prune_namespace-answer :
      (now : ℕ) (k : NamespaceId) (entries : List DocEntry) (node : StashNode w)
      → IsValid w node
      → tracked_count node.content
        ≡ (prune_namespace w now k entries node).1
          + tracked_count (prune_namespace w now k entries node).0.content
  unfolding prune_namespace
  prune_namespace-answer now k entries node v = forget_all-answer k _ node v

  prune_all-answer :
      (now : ℕ) (namespaces : List NamespaceId) (node : StashNode w) (n : ℕ)
      → IsValid w node
      → (prune_all w now namespaces node).1 ≡ ok n
      → tracked_count node.content ≡ n + tracked_count (prune_all w now namespaces node).0.content
  unfolding prune_all
  prune_all-answer now [] node n v e = ground (arith, e)
  prune_all-answer now (k ∷ namespaces) node n v e =
      elim (Bool-cases (HashSet.contains bytes_discrete k node.handles)) [
        | inr closed ↦
            rw (prune_all, closed)
              (prune_all-answer now namespaces node n v (rw (prune_all, closed) at e))
        | inl opened ↦ elim (Result-cases (w.get_many node.docs k)) [
          | inr (msg, f) ↦ absurd (ground (arith, opened, f, e))
          | inl (entries, f) ↦
              let node' = (prune_namespace w now k entries node).0 in
              elim (Result-cases (prune_all w now namespaces node').1) [
                | inr (msg, g) ↦ absurd (ground (arith, opened, f, g, e))
                | inl (m, g) ↦
                    let rest =
                      prune_all-answer now namespaces node' m
                        (prune_namespace-IsValid w now k entries node v) g in
                    let sum : (prune_namespace w now k entries node).1 + m ≡ n =
                      ground (arith, e, opened, f, g) in
                    rw (prune_all, opened, f)
                      (omega (arith, prune_namespace-answer now k entries node v, rest, sum))
              ]
        ]
      ]

  -- The number that a sweep of a valid node answers is the number of hashes by which the content index shrinks.
  pub prune_once_answer :
      (now : ℕ) (node : StashNode w) (n : ℕ)
      → IsValid w node
      → (prune_once w now node).1 ≡ ok n
      → (content_stats w node).1 ≡ n + (content_stats w (prune_once w now node).0).1
  unfolding prune_once content_stats
  prune_once_answer now node n v e =
      prune_all-answer now (known_namespaces node.registry) node n v e
