-- ===== src/Node/Collect.antt =====
-- The garbage collection of the blob store that `spawn` of `rust/src/node.rs` sets up: what its callback
-- protects, and what a collection leaves.
use trail_stash.Base.{
  ◌≢◌, ap, ◌∙◌, ℕ, true, false, ◌||◌, none, List, [], ◌∷◌, bytes_discrete, ◌≡◌, refl, arith,
  Bool-cases, inl, inr,
}
use trail_stash.Content.{
  is_present, ContentIndex, ContentHash, NamespaceId, referenced, is_tracked, is_tracked_for,
  is_present_for,
}
use trail_stash.Content.Invariant.{IsValid as IsConsistent}
use trail_stash.Content.Laws.{is_tracked_iff}
use trail_stash.Node.Prune.{decided, prune_namespace, kept_hashes, forget_hashes}
use trail_stash.Node.Release.{is_needed, is_dropped, prune_namespace_effect}
use trail_stash.Content.Counts.{referenced_iff}
use trail_stash.HashSet
use trail_stash.HashSet.{contains-insert, HashSet}
use trail_stash.Iroh.{DocEntry, Iroh, IsCollector}
use trail_stash.Node.{StashNode}
use trail_stash.Node.Linked.{forget_all-IsValid, IsValid}
use trail_stash.Node.Serve.{content_bytes}

-- The loop of the callback over `referenced()`.
unfoldable pub insert_all : List ContentHash → HashSet ContentHash → HashSet ContentHash
insert_all [] live = live
insert_all (hash ∷ hashes) live = insert_all hashes (HashSet.insert bytes_discrete hash live).0

-- `add_protected`: the live set after the callback.
unfoldable pub add_protected : ContentIndex → HashSet ContentHash → HashSet ContentHash
add_protected index live = insert_all (referenced index) live

contains-insert_all :
    (h : ContentHash) (hashes : List ContentHash) (live : HashSet ContentHash)
    → HashSet.contains bytes_discrete h (insert_all hashes live)
      ≡ (HashSet.contains bytes_discrete h hashes || HashSet.contains bytes_discrete h live)
unfolding insert_all HashSet.contains
contains-insert_all h [] live = refl
contains-insert_all h (hash ∷ hashes) live = ground (
  arith,
  contains-insert_all h hashes (HashSet.insert bytes_discrete hash live).0,
  contains-insert bytes_discrete hash h live,
)

pub contains-add_protected :
    (h : ContentHash) (index : ContentIndex) (live : HashSet ContentHash)
    → HashSet.contains bytes_discrete h (add_protected index live)
      ≡ (is_tracked h index || HashSet.contains bytes_discrete h live)
unfolding add_protected
contains-add_protected h index live =
    contains-insert_all h (referenced index) live
    ∙ ap (λ b. b || HashSet.contains bytes_discrete h live) (referenced_iff h index)

present_tracked :
    (ns : NamespaceId) (h : ContentHash) (index : ContentIndex)
    → is_present_for ns h index ≡ true
    → is_tracked h index ≡ true
unfolding is_present_for is_present is_tracked
present_tracked ns h index e = ground arith

-- A hash that no namespace references is not tracked.
untracked :
    (h : ContentHash) (index : ContentIndex)
    → IsConsistent index
    → ((ns : NamespaceId) → is_tracked_for ns h index ≡ false)
    → is_tracked h index ≡ false
untracked h index v none_of = elim (Bool-cases (is_tracked h index)) [
  | inr e ↦ e
  | inl e ↦ let (ns, f) = (is_tracked_iff h index v).0 e in absurd (ground (arith, none_of ns, f))
]

module _ (w : Iroh) where
  -- One collection of the store, which starts from the hashes that it tags itself.
  unfoldable pub collect : HashSet ContentHash → StashNode w → StashNode w
  collect tagged node = record node {
    blobs = w.collect (add_protected node.content tagged) node.blobs;
  }

  module _ (law : IsCollector w) (tagged : HashSet ContentHash) where
    -- A collection that keeps what is live changes no answer to a download: what the node serves before it the node
    -- serves after it.
    pub collect_serves :
        (ns : NamespaceId) (h : ContentHash) (node : StashNode w)
        → content_bytes w ns h (collect tagged node) ≡ content_bytes w ns h node
    unfolding content_bytes collect
    collect_serves ns h node = elim (Bool-cases (is_present_for ns h node.content)) [
      | inr e ↦ rw (e, content_bytes) refl
      | inl e ↦
          rw (e, content_bytes)
            (law.kept (add_protected node.content tagged) node.blobs h (
              ground (
                arith,
                contains-add_protected h node.content tagged,
                present_tracked ns h node.content e,
              )))
    ]

    -- Once the sweep of a namespace has released every entry that names a hash, no other namespace
    -- references the hash and the store does not tag it itself, the next collection frees the bytes, on a valid node
    -- whose store frees what is not live.
    pub pruned_freed :
        (now : ℕ) (ns : NamespaceId) (entries : List DocEntry) (h : ContentHash)
        (node : StashNode w)
        → IsValid w node
        → is_needed h (decided w now entries node) ≡ false
        → is_dropped h (decided w now entries node) ≡ true
        → ((ns' : NamespaceId) → ns' ≢ ns → is_tracked_for ns' h node.content ≡ false)
        → HashSet.contains bytes_discrete h tagged ≡ false
        → w.get_bytes (collect tagged (prune_namespace w now ns entries node).0).blobs h ≡ none
    unfolding collect prune_namespace
    pruned_freed now ns entries h node v needed dropped others untagged =
        let node' = (prune_namespace w now ns entries node).0 in
        law.freed (add_protected node'.content tagged) node'.blobs h (
          ground (
            arith,
            contains-add_protected h node'.content tagged,
            untagged,
            untracked h node'.content
                (forget_all-IsValid w ns
                  (forget_hashes (kept_hashes (decided w now entries node))
                    (decided w now entries node))
                  node v).valid
                (λ ns'. elim (bytes_discrete ns' ns) [
                  | yes e ↦ ground (
                    arith,
                    prune_namespace_effect w now ns entries node ns' h v,
                    e,
                    needed,
                    dropped,
                  )
                  | no ne ↦
                      ground
                        (arith, prune_namespace_effect w now ns entries node ns' h v, others ns' ne)
                ]),
          ))
