-- ===== src/Node/Sweep/Stopped.antt =====
-- A sweep of `rust/src/node.rs` that an error of the replica ends.
use trail_stash.Base.{
  Bool-cases, true, ◌&&◌, List, [], ◌∷◌, bytes_discrete, ◌≡◌, refl, sym, ap, ◌∙◌, arith, ℕ, ◌⊎◌,
  inl, inr,
}
use trail_stash.Iroh.{Iroh, DocEntry}
use trail_stash.Content.{ContentHash, NamespaceId, is_tracked_for}
use trail_stash.HashSet
use trail_stash.Node.{StashNode}
use trail_stash.Node.Linked.{IsValid}
use trail_stash.Node.Prune.{prune_once, prune_all, prune_namespace}
use trail_stash.Result.{Result-cases, err, ok}
use trail_stash.Subscriptions.{known_namespaces}
use trail_stash.Text.{Text}
use trail_stash.Node.Sweep.{
  read, prune_namespace-read, is_tracked_for, ContentHash, prune_all, StashNode, NamespaceId, keeps,
  swept_then, prune_namespace-IsValid,
}

module _ (w : Iroh) (now : ℕ) where
  -- The references of a namespace are as they were.
  abbrev pub IsUntouched : StashNode w → StashNode w → NamespaceId → Type 0
  IsUntouched after node ns =
      (h : ContentHash) → is_tracked_for ns h after.content ≡ is_tracked_for ns h node.content

  -- The references of a namespace are those that its records let stay.
  abbrev pub IsSwept : StashNode w → StashNode w → NamespaceId → Type 0
  IsSwept after node ns =
      (h : ContentHash)
      → is_tracked_for ns h after.content
        ≡ (is_tracked_for ns h node.content && keeps w now ns h node)

  -- The namespace whose records could not be read.
  pub record Failed (namespaces : List NamespaceId) (node : StashNode w) (e : Text) : Type 0 where
    pub namespace : NamespaceId
    pub listed : HashSet.contains bytes_discrete namespace namespaces ≡ true
    pub opened : HashSet.contains bytes_discrete namespace node.handles ≡ true
    pub error : w.get_many node.docs namespace ≡ err e

  here :
      (k : NamespaceId) (namespaces : List NamespaceId) (node : StashNode w) (e : Text)
      → HashSet.contains bytes_discrete k node.handles ≡ true
      → w.get_many node.docs k ≡ err e
      → Failed (k ∷ namespaces) node e
  unfolding HashSet.contains
  here k namespaces node e opened error = record {
    namespace = k;
    listed = ground arith;
    opened = opened;
    error = error;
  }

  later :
      (k : NamespaceId) (namespaces : List NamespaceId) (node after : StashNode w) (e : Text)
      → read w after ≡ read w node
      → Failed namespaces after e
      → Failed (k ∷ namespaces) node e
  unfolding HashSet.contains
  later k namespaces node after e same failed = record {
    namespace = failed.namespace;
    listed = ground (arith, failed.listed);
    opened =
        ap (λ r. HashSet.contains bytes_discrete failed.namespace r.1) (sym same) ∙ failed.opened;
    error = ap (λ r. w.get_many r.0 failed.namespace) (sym same) ∙ failed.error;
  }

  module _ (k ns : NamespaceId) (entries : List DocEntry) (node : StashNode w) (v : IsValid w node)
      (opened : HashSet.contains bytes_discrete k node.handles ≡ true)
      (listed : w.get_many node.docs k ≡ ok entries) where
    -- The sweep of one namespace, and then no more or once more of the other.
    first_then :
        (after : StashNode w)
        → IsSwept after (prune_namespace w now k entries node).0 ns
        → IsSwept after node ns
    unfolding HashSet.contains
    first_then after swept h =
        swept h ∙ ground (arith, swept_then w now ns k (ns ∷ []) entries h node v opened listed)

    first_alone :
        (after : StashNode w)
        → IsUntouched after (prune_namespace w now k entries node).0 ns
        → IsSwept after node ns ⊎ IsUntouched after node ns
    unfolding HashSet.contains
    first_alone after same = elim (bytes_discrete ns k) [
      | yes p ↦
          inl (λ h.
            same h ∙ ground (arith, p, swept_then w now ns k [] entries h node v opened listed))
      | no np ↦ inr (λ h.
          same h ∙ ground (arith, np, swept_then w now ns k [] entries h node v opened listed))
    ]

  prune_all-stopped :
      (namespaces : List NamespaceId) (node : StashNode w) (e : Text)
      → IsValid w node
      → (prune_all w now namespaces node).1 ≡ err e
      → Failed namespaces node e
        × ((ns : NamespaceId)
            → IsSwept (prune_all w now namespaces node).0 node ns
              ⊎ IsUntouched (prune_all w now namespaces node).0 node ns)
  unfolding prune_all
  prune_all-stopped [] node e v f = absurd (ground (arith, f))
  prune_all-stopped (k ∷ namespaces) node e v f =
      elim (Bool-cases (HashSet.contains bytes_discrete k node.handles)) [
        | inr closed ↦
            let (failed, each) =
              prune_all-stopped namespaces node e v (rw (prune_all, closed) at f) in
            rw (prune_all, closed) (later k namespaces node node e refl failed, each)
        | inl opened ↦ elim (Result-cases (w.get_many node.docs k)) [
          | inr (msg, g) ↦
              rw (prune_all, opened, g)
                (
                  here k namespaces node e opened (ground (arith, g, opened, f)),
                  λ ns. inr (λ h. refl),
                )
          | inl (entries, g) ↦
              let node' = (prune_namespace w now k entries node).0 in
              let after = (prune_all w now namespaces node').0 in
              let (failed, each) =
                prune_all-stopped namespaces node' e
                  (prune_namespace-IsValid w now k entries node v) (ground (arith, f, opened, g)) in
              rw (prune_all, opened, g)
                (
                  later k namespaces node node' e (prune_namespace-read w now k entries node)
                      failed,
                  λ ns. elim (each ns) [
                    | inl swept ↦ inl (first_then k ns entries node v opened g after swept)
                    | inr same ↦ first_alone k ns entries node v opened g after same
                  ],
                )
        ]
      ]

  -- A sweep that ends with an error met it in the records of a known namespace that is open, and leaves every
  -- namespace of a valid node either with exactly the references that its records let stay, or as it was: none is
  -- swept in part.
  pub prune_once_stopped :
      (node : StashNode w) (e : Text)
      → IsValid w node
      → (prune_once w now node).1 ≡ err e
      → Failed (known_namespaces node.registry) node e
        × ((ns : NamespaceId)
            → IsSwept (prune_once w now node).0 node ns
              ⊎ IsUntouched (prune_once w now node).0 node ns)
  unfolding prune_once
  prune_once_stopped node e v f = prune_all-stopped (known_namespaces node.registry) node e v f
