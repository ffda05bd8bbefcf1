-- ===== src/Node/Sweep/Again.antt =====
-- A second sweep of `rust/src/node.rs` at the same time, over all namespaces.
use trail_stash.Base.{
  ℕ, ◌+◌, List, [], ◌∷◌, bytes_discrete, ◌≡◌, refl, sym, ap, ◌∙◌, arith, inl, inr, Bool-cases,
}
use trail_stash.Content.{NamespaceId}
use trail_stash.HashSet
use trail_stash.Iroh.{Iroh}
use trail_stash.Node.{StashNode}
use trail_stash.Node.Frame.{prune_all-frame}
use trail_stash.Node.Linked.{IsValid}
use trail_stash.Node.Prune.{prune_namespace, prune_all, prune_once}
use trail_stash.Node.Run.{prune_all-IsValid}
use trail_stash.Node.Sweep.{read, prune_namespace-read, keeps_same, prune_once_releases}
use trail_stash.Node.Sweep.Answer.{prune_once_answer}
use trail_stash.Node.Sweep.Order.{tracked_count-same}
use trail_stash.Node.Serve.{content_stats}
use trail_stash.Result.{Result-cases, ok}
use trail_stash.Subscriptions.{known_namespaces, is_known}

module _ (w : Iroh) (now : ℕ) where
  prune_all-read :
      (namespaces : List NamespaceId) (node : StashNode w)
      → read w (prune_all w now namespaces node).0 ≡ read w node
  unfolding prune_all
  prune_all-read [] node = refl
  prune_all-read (k ∷ namespaces) node =
      elim (Bool-cases (HashSet.contains bytes_discrete k node.handles)) [
        | inr closed ↦ rw (prune_all, closed) (prune_all-read namespaces node)
        | inl opened ↦ elim (Result-cases (w.get_many node.docs k)) [
          | inr (msg, f) ↦ rw (prune_all, opened, f) refl
          | inl (entries, f) ↦
              rw (prune_all, opened, f)
                (prune_all-read namespaces (prune_namespace w now k entries node).0
                  ∙ prune_namespace-read w now k entries node)
        ]
      ]

  -- Whether a sweep ends with an error depends on nothing that a sweep changes.
  prune_all_ok :
      (namespaces : List NamespaceId) (after node : StashNode w) (n : ℕ)
      → read w after ≡ read w node
      → (prune_all w now namespaces node).1 ≡ ok n
      → (m : ℕ) × ((prune_all w now namespaces after).1 ≡ ok m)
  unfolding prune_all
  prune_all_ok [] after node n same e = (0, refl)
  prune_all_ok (k ∷ namespaces) after node n same e =
      let handles = ap (λ r. HashSet.contains bytes_discrete k r.1) same in
      let listing = ap (λ r. w.get_many r.0 k) same in
      elim (Bool-cases (HashSet.contains bytes_discrete k node.handles)) [
        | inr closed ↦
            rw (prune_all, handles ∙ closed)
              (prune_all_ok namespaces after node n same (rw (prune_all, closed) at e))
        | inl opened ↦ elim (Result-cases (w.get_many node.docs k)) [
          | inr (msg, f) ↦ absurd (ground (arith, opened, f, e))
          | inl (entries, f) ↦
              let node' = (prune_namespace w now k entries node).0 in
              let after' = (prune_namespace w now k entries after).0 in
              elim (Result-cases (prune_all w now namespaces node').1) [
                | inr (msg, g) ↦ absurd (ground (arith, opened, f, g, e))
                | inl (m, g) ↦
                    let (m', g') =
                      prune_all_ok namespaces after' node' m
                        (prune_namespace-read w now k entries after
                          ∙ same
                          ∙ sym (prune_namespace-read w now k entries node))
                        g in
                    (
                      (prune_namespace w now k entries after).1 + m',
                      rw (prune_all, handles ∙ opened, listing ∙ f, g') refl,
                    )
              ]
        ]
      ]

  prune_once-kept :
      (node : StashNode w)
      → let after = (prune_once w now node).0 in
        (read w after ≡ read w node) × (after.registry ≡ node.registry)
  unfolding prune_once
  prune_once-kept node = (
    prune_all-read (known_namespaces node.registry) node,
    ap (λ f. f.0) (prune_all-frame w now (known_namespaces node.registry) node),
  )

  prune_once-IsValid : (node : StashNode w) → IsValid w node → IsValid w (prune_once w now node).0
  unfolding prune_once
  prune_once-IsValid node v = prune_all-IsValid w now (known_namespaces node.registry) node v

  again_ok :
      (node : StashNode w) (n : ℕ)
      → (prune_once w now node).1 ≡ ok n
      → (m : ℕ) × ((prune_once w now (prune_once w now node).0).1 ≡ ok m)
  unfolding prune_once
  again_ok node n e =
      let after = (prune_once w now node).0 in
      let (reads, registry) = prune_once-kept node in
      let (m, f) = prune_all_ok (known_namespaces node.registry) after node n reads e in
      (m, ap (λ r. (prune_all w now (known_namespaces r) after).1) registry ∙ f)

  -- A sweep of a valid node right after one that no error ends, at the same time, ends without an error too and
  -- releases nothing.
  pub prune_once_again :
      (node : StashNode w) (n : ℕ)
      → IsValid w node
      → (prune_once w now node).1 ≡ ok n
      → (prune_once w now (prune_once w now node).0).1 ≡ ok 0
  unfolding content_stats
  prune_once_again node n v e =
      let first = (prune_once w now node).0 in
      let (m, f) = again_ok node n e in
      let (reads, registry) = prune_once-kept node in
      let v' = prune_once-IsValid node v in
      let same =
        tracked_count-same first.content (prune_once w now first).0.content v'.valid
          (prune_once-IsValid first v').valid
          (λ ns h. ground (
            arith,
            prune_once_releases w now node n v e ns h,
            prune_once_releases w now first m v' f ns h,
            keeps_same w now ns h first node reads,
            ap (is_known ns) registry,
          )) in
      f ∙ ap ok (omega (arith, same, prune_once_answer w now first m v' f))
