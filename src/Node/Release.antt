-- ===== src/Node/Release.antt =====
-- What a sweep of `rust/src/node.rs` releases, and what it keeps.
pub mod Again
use trail_stash.Base.{
  ℕ, Bool, true, false, not, ◌&&◌, ◌||◌, Option, none, some, List, [], ◌∷◌, bytes_discrete, ◌≡◌,
  refl, arith, any, is_none, ite,
}
use trail_stash.Content.{ContentHash, NamespaceId, is_tracked_for, forget}
use trail_stash.Content.Laws.{forget_effect}
use trail_stash.HashSet
use trail_stash.HashSet.{HashSet, contains-insert}
use trail_stash.Iroh.{Iroh, DocEntry}
use trail_stash.Node.{StashNode}
use trail_stash.Node.Linked.{IsValid, forget_one-IsValid}
use trail_stash.Node.Prune.{
  PruneCandidate, kept_hashes, forget_hashes, forget_one, forget_all, decided, prune_namespace,
}
use trail_stash.Retention.{ReleaseReason}

abbrev pub Decided : Type 0
Decided = List (PruneCandidate × Option ReleaseReason)

abbrev same : ContentHash → ContentHash → Bool
same h k = ite (bytes_discrete h k) true false

-- Some entry that is kept names the hash.
abbrev pub is_needed : ContentHash → Decided → Bool
is_needed h = any (λ p. same h p.0.hash && is_none p.1)

-- Some entry that is released names the hash.
abbrev pub is_dropped : ContentHash → Decided → Bool
is_dropped h = any (λ p. same h p.0.hash && not (is_none p.1))

contains-kept_hashes :
    (h : ContentHash) (list : Decided)
    → HashSet.contains bytes_discrete h (kept_hashes list) ≡ is_needed h list
unfolding kept_hashes HashSet.contains
contains-kept_hashes h [] = refl
contains-kept_hashes h ((c, none) ∷ list) =
    ground (
      arith,
      contains-kept_hashes h list,
      contains-insert bytes_discrete c.hash h (kept_hashes list),
    )
contains-kept_hashes h ((c, some reason) ∷ list) = ground (arith, contains-kept_hashes h list)

contains-forget_hashes :
    (h : ContentHash) (kept : HashSet ContentHash) (list : Decided)
    → HashSet.contains bytes_discrete h (forget_hashes kept list)
      ≡ (is_dropped h list && not (HashSet.contains bytes_discrete h kept))
unfolding forget_hashes HashSet.contains
contains-forget_hashes h kept [] = refl
contains-forget_hashes h kept ((c, none) ∷ list) =
    ground (arith, contains-forget_hashes h kept list)
contains-forget_hashes h kept ((c, some reason) ∷ list) = ground (
  arith,
  contains-forget_hashes h kept list,
  contains-insert bytes_discrete c.hash h (forget_hashes kept list),
)

module _ (w : Iroh) where
  pub forget_one-content :
      (ns : NamespaceId) (hash : ContentHash) (node : StashNode w)
      → (forget_one w ns hash node).0.content ≡ (forget ns hash node.content).0
  unfolding forget_one
  forget_one-content ns hash node = ground arith

  pub is_tracked_for-forget_all :
      (ns : NamespaceId) (hashes : List ContentHash) (node : StashNode w) (ns' : NamespaceId)
      (h : ContentHash)
      → IsValid w node
      → is_tracked_for ns' h (forget_all w ns hashes node).0.content
        ≡ ite
            (bytes_discrete ns' ns)
            (is_tracked_for ns' h node.content && not (HashSet.contains bytes_discrete h hashes))
            (is_tracked_for ns' h node.content)
  unfolding forget_all HashSet.contains
  is_tracked_for-forget_all ns [] node ns' h v = ground arith
  is_tracked_for-forget_all ns (hash ∷ hashes) node ns' h v = ground (
    arith,
    is_tracked_for-forget_all ns hashes (forget_one w ns hash node).0 ns' h
        (forget_one-IsValid w ns hash node v),
    forget_one-content ns hash node,
    (forget_effect ns hash node.content ns' h v.valid).0,
  )

  -- On a node whose ledgers agree, the sweep of one namespace drops exactly the references that only
  -- released entries make: a reference of the namespace stays if an entry that is kept names the hash or
  -- no released entry does, and goes otherwise; no reference of another namespace changes.
  pub prune_namespace_effect :
      (now : ℕ) (ns : NamespaceId) (entries : List DocEntry) (node : StashNode w)
      (ns' : NamespaceId) (h : ContentHash)
      → IsValid w node
      → let list = decided w now entries node in
        is_tracked_for ns' h (prune_namespace w now ns entries node).0.content
        ≡ ite
            (bytes_discrete ns' ns)
            (is_tracked_for ns' h node.content && (is_needed h list || not (is_dropped h list)))
            (is_tracked_for ns' h node.content)
  unfolding prune_namespace
  prune_namespace_effect now ns entries node ns' h v =
      let list = decided w now entries node in
      ground (
        arith,
        is_tracked_for-forget_all ns (forget_hashes (kept_hashes list) list) node ns' h v,
        contains-forget_hashes h (kept_hashes list) list,
        contains-kept_hashes h list,
      )
