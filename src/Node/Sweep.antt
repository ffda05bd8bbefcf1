-- ===== src/Node/Sweep.antt =====
-- The whole sweep of `rust/src/node.rs`, over all namespaces: what it releases, what its answer counts, and where an
-- error of the replica leaves it.
pub mod Stopped
pub mod Answer
pub mod Order
pub mod Again
pub mod Stale
use trail_stash.Base.{
  if_pos, false, inl, inr, Bool-cases, ℕ, Bool, true, not, ◌&&◌, ◌||◌, List, [], ◌∷◌,
  bytes_discrete, ◌≡◌, refl, ap, ◌∙◌, arith, if◌then◌else◌,
}
use trail_stash.Content.{ContentHash, NamespaceId, is_tracked_for}
use trail_stash.HashMap
use trail_stash.HashSet
use trail_stash.HashSet.{HashSet}
use trail_stash.Iroh.{Iroh, DocEntry}
use trail_stash.Node.{StashNode}
use trail_stash.Subscriptions.{is_known, known_namespaces}
use trail_stash.Node.Linked.{forget_all-IsValid, IsValid}
use trail_stash.Node.Prune.{prune_once, prune_all, forget_one, forget_all, decided, prune_namespace}
use trail_stash.Node.Release.{is_needed, is_dropped, prune_namespace_effect}
use trail_stash.Result.{Result-cases, ok, err}
use trail_stash.Retention.{RetentionPolicy}

module _ (w : Iroh) where
  -- What a sweep reads and no sweep changes.
  abbrev pub Read : Type 0
  Read = w.Docs × HashSet NamespaceId × RetentionPolicy

  abbrev pub read : StashNode w → Read
  read node = (node.docs, node.handles, node.retention)

  forget_all-read :
      (ns : NamespaceId) (hashes : List ContentHash) (node : StashNode w)
      → read (forget_all w ns hashes node).0 ≡ read node
  unfolding forget_all forget_one
  forget_all-read ns [] node = refl
  forget_all-read ns (hash ∷ hashes) node =
      forget_all-read ns hashes (forget_one w ns hash node).0 ∙ ground arith

  pub prune_namespace-read :
      (now : ℕ) (ns : NamespaceId) (entries : List DocEntry) (node : StashNode w)
      → read (prune_namespace w now ns entries node).0 ≡ read node
  unfolding prune_namespace
  prune_namespace-read now ns entries node = forget_all-read ns _ node

  -- Whether the records of a namespace let a reference of it stay: some record that is kept names the hash, or
  -- no record that is released does.
  abbrev pub records_keep : ℕ → ContentHash → List DocEntry → StashNode w → Bool
  records_keep now h entries node =
      is_needed h (decided w now entries node) || not (is_dropped h (decided w now entries node))

  -- The same of a namespace as the sweep finds it: one that is not open, or whose records cannot be read, keeps all.
  abbrev pub keeps : ℕ → NamespaceId → ContentHash → StashNode w → Bool
  keeps now ns h node =
      if HashSet.contains bytes_discrete ns node.handles
      then elim (w.get_many node.docs ns) [
        | err e ↦ true
        | ok entries ↦ records_keep now h entries node
      ]
      else true

  pub keeps_same :
      (now : ℕ) (ns : NamespaceId) (h : ContentHash) (after node : StashNode w)
      → read after ≡ read node
      → keeps now ns h after ≡ keeps now ns h node
  unfolding decided
  keeps_same now ns h after node e =
      ap (λ (r : Read). keeps now ns h (record node { docs = r.0; handles = r.1; retention = r.2 }))
        e

  closed_keeps :
      (now : ℕ) (ns k : NamespaceId) (h : ContentHash) (node : StashNode w)
      → HashSet.contains bytes_discrete k node.handles ≡ false
      → ns ≡ k
      → keeps now ns h node ≡ true
  closed_keeps now ns k h node closed p = ground (arith, closed, p)

  -- What the namespaces of a list let stay.
  abbrev pub all_keep : ℕ → List NamespaceId → NamespaceId → ContentHash → StashNode w → Bool
  all_keep now namespaces ns h node =
      if HashSet.contains bytes_discrete ns namespaces then keeps now ns h node else true

  pub none_keep :
      (now : ℕ) (ns : NamespaceId) (h : ContentHash) (node : StashNode w) (b : Bool)
      → b ≡ (b && all_keep now [] ns h node)
  unfolding HashSet.contains
  none_keep now ns h node b = ground arith

  pub skipped_keep :
      (now : ℕ) (ns k : NamespaceId) (namespaces : List NamespaceId) (h : ContentHash)
      (node : StashNode w)
      → HashSet.contains bytes_discrete k node.handles ≡ false
      → all_keep now namespaces ns h node ≡ all_keep now (k ∷ namespaces) ns h node
  unfolding HashSet.contains
  skipped_keep now ns k namespaces h node closed = elim (bytes_discrete ns k) [
    | no np ↦ ground (arith, np)
    | yes p ↦
        let kept = closed_keeps now ns k h node closed p in
        rw
          (
            kept,
            if_pos (bytes_discrete ns k) p true (HashSet.contains bytes_discrete ns namespaces),
          )
          (elim (Bool-cases (HashSet.contains bytes_discrete ns namespaces)) [
            | inl e ↦ rw e refl
            | inr e ↦ rw e refl
          ])
  ]

  -- What a step of the sweep does to a reference, and what the steps after it do.
  pub swept_then :
      (now : ℕ) (ns k : NamespaceId) (namespaces : List NamespaceId) (entries : List DocEntry)
      (h : ContentHash) (node : StashNode w)
      → IsValid w node
      → HashSet.contains bytes_discrete k node.handles ≡ true
      → w.get_many node.docs k ≡ ok entries
      → (is_tracked_for ns h (prune_namespace w now k entries node).0.content
          && all_keep now namespaces ns h (prune_namespace w now k entries node).0)
        ≡ (is_tracked_for ns h node.content && all_keep now (k ∷ namespaces) ns h node)
  unfolding HashSet.contains
  swept_then now ns k namespaces entries h node v opened listed = ground (
    arith,
    opened,
    listed,
    prune_namespace_effect w now k entries node ns h v,
    keeps_same now ns h (prune_namespace w now k entries node).0 node
        (prune_namespace-read now k entries node),
  )

  pub prune_namespace-IsValid :
      (now : ℕ) (k : NamespaceId) (entries : List DocEntry) (node : StashNode w)
      → IsValid w node
      → IsValid w (prune_namespace w now k entries node).0
  unfolding prune_namespace
  prune_namespace-IsValid now k entries node v = forget_all-IsValid w k _ node v

  -- The references after a run over a list of namespaces that no error ends.
  prune_all-tracked :
      (now : ℕ) (namespaces : List NamespaceId) (node : StashNode w) (n : ℕ)
      → IsValid w node
      → (prune_all w now namespaces node).1 ≡ ok n
      → (ns : NamespaceId) (h : ContentHash)
      → is_tracked_for ns h (prune_all w now namespaces node).0.content
        ≡ (is_tracked_for ns h node.content && all_keep now namespaces ns h node)
  unfolding prune_all
  prune_all-tracked now [] node n v e ns h =
      none_keep now ns h node (is_tracked_for ns h node.content)
  prune_all-tracked now (k ∷ namespaces) node n v e ns h =
      elim (Bool-cases (HashSet.contains bytes_discrete k node.handles)) [
        | inr closed ↦
            rw (prune_all, closed)
              (prune_all-tracked now namespaces node n v (rw (prune_all, closed) at e) ns h
                ∙ ap (λ b. is_tracked_for ns h node.content && b)
                    (skipped_keep now ns k namespaces h node closed))
        | inl opened ↦ elim (Result-cases (w.get_many node.docs k)) [
          | inr (msg, f) ↦ absurd (ground (arith, opened, f, e))
          | inl (entries, f) ↦
              let node' = (prune_namespace w now k entries node).0 in
              elim (Result-cases (prune_all w now namespaces node').1) [
                | inr (msg, g) ↦ absurd (ground (arith, opened, f, g, e))
                | inl (m, g) ↦
                    rw (prune_all, opened, f)
                      (prune_all-tracked now namespaces node' m
                          (prune_namespace-IsValid now k entries node v) g ns h
                        ∙ swept_then now ns k namespaces entries h node v opened f)
              ]
        ]
      ]

  -- A sweep that no error ends leaves a reference of a namespace on a valid node exactly if it was there before and,
  -- where the namespace is known, open and readable, some record that is kept names the hash or no record that is
  -- released does: the namespaces do not disturb one another.
  pub prune_once_releases :
      (now : ℕ) (node : StashNode w) (n : ℕ)
      → IsValid w node
      → (prune_once w now node).1 ≡ ok n
      → (ns : NamespaceId) (h : ContentHash)
      → is_tracked_for ns h (prune_once w now node).0.content ≡ (
          is_tracked_for ns h node.content
          && (if is_known ns node.registry then keeps now ns h node else true))
  unfolding prune_once is_known known_namespaces
  prune_once_releases now node n v e ns h =
      prune_all-tracked now (known_namespaces node.registry) node n v e ns h
