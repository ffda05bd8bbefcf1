-- ===== src/Node/Release/Again.antt =====
-- A second sweep of `rust/src/node.rs` over the same records finds nothing left to do.
use trail_stash.Base.{
  ℕ, true, false, List, [], ◌∷◌, bytes_discrete, ◌≡◌, refl, ap, ◌∙◌, arith, map, Bool-cases, inl,
  inr,
}
use trail_stash.Content.{ContentHash, NamespaceId, is_tracked_for, forget}
use trail_stash.Content.Laws.{forget_last_iff, forget_effect}
use mathlib.Core.List.{zip}
use trail_stash.Retention.{release_decisions}
use trail_stash.HashSet
use trail_stash.HashSet.{HashSet}
use trail_stash.Iroh.{Iroh, DocEntry}
use trail_stash.Node.{StashNode}
use trail_stash.Node.Linked.{IsValid, forget_one-IsValid, forget_all-IsValid}
use trail_stash.Node.Prune.{
  candidate_of, retention_entry, kept_hashes, forget_hashes, forget_one, forget_all, decided,
  prune_namespace,
}
use trail_stash.Node.Release.{forget_one-content, is_tracked_for-forget_all}

module _ (w : Iroh) (ns : NamespaceId) where
  forget_untracked :
      (hash : ContentHash) (node : StashNode w)
      → IsValid w node
      → is_tracked_for ns hash node.content ≡ false
      → (forget ns hash node.content).1 ≡ false
  forget_untracked hash node v gone = elim (Bool-cases (forget ns hash node.content).1) [
    | inr e ↦ e
    | inl e ↦ absurd (ground (arith, gone, ((forget_last_iff ns hash node.content v.valid).0 e).0))
  ]

  still_gone :
      (hash h : ContentHash) (node : StashNode w)
      → IsValid w node
      → is_tracked_for ns h node.content ≡ false
      → is_tracked_for ns h (forget_one w ns hash node).0.content ≡ false
  still_gone hash h node v gone =
      ap (is_tracked_for ns h) (forget_one-content w ns hash node)
      ∙ ground (arith, gone, (forget_effect ns hash node.content ns h v.valid).0)

  -- Nothing is released where the namespace references none of the hashes.
  forget_all-nothing :
      (hashes : List ContentHash) (node : StashNode w)
      → IsValid w node
      → ((h : ContentHash)
          → HashSet.contains bytes_discrete h hashes ≡ true
          → is_tracked_for ns h node.content ≡ false)
      → (forget_all w ns hashes node).1 ≡ 0
  unfolding forget_all forget_one HashSet.contains
  forget_all-nothing [] node v gone = refl
  forget_all-nothing (hash ∷ hashes) node v gone =
      let here : is_tracked_for ns hash node.content ≡ false = gone hash (ground arith) in
      let kept : (forget ns hash node.content).1 ≡ false = forget_untracked hash node v here in
      let rest =
        forget_all-nothing hashes (forget_one w ns hash node).0
          (forget_one-IsValid w ns hash node v)
          (λ h c. still_gone hash h node v (gone h (ground (arith, c)))) in
      ground (arith, kept, rest)

  forget_all-retention :
      (hashes : List ContentHash) (node : StashNode w)
      → (forget_all w ns hashes node).0.retention ≡ node.retention
  unfolding forget_all forget_one
  forget_all-retention [] node = refl
  forget_all-retention (hash ∷ hashes) node =
      forget_all-retention hashes (forget_one w ns hash node).0 ∙ ground arith

  decided_same :
      (now : ℕ) (entries : List DocEntry) (after node : StashNode w)
      → after.retention ≡ node.retention
      → decided w now entries after ≡ decided w now entries node
  unfolding decided
  decided_same now entries after node e =
      let candidates = map candidate_of entries in
      ap (λ policy. zip candidates (release_decisions (map retention_entry candidates) policy now))
        e

  -- On a valid node a sweep of one namespace over the same records and at the same time, right after the first,
  -- releases nothing.
  pub prune_namespace_again :
      (now : ℕ) (entries : List DocEntry) (node : StashNode w)
      → IsValid w node
      → (prune_namespace w now ns entries (prune_namespace w now ns entries node).0).1 ≡ 0
  unfolding prune_namespace
  prune_namespace_again now entries node v =
      let list = decided w now entries node in
      let hashes = forget_hashes (kept_hashes list) list in
      let after = (forget_all w ns hashes node).0 in
      let same : decided w now entries after ≡ list =
        decided_same now entries after node (forget_all-retention hashes node) in
      ap (λ list'. (forget_all w ns (forget_hashes (kept_hashes list') list') after).1) same
      ∙ forget_all-nothing hashes after (forget_all-IsValid w ns hashes node v)
          (λ h c. ground (arith, c, is_tracked_for-forget_all w ns hashes node ns h v))
