-- ===== src/Node/Prune.antt =====
-- `prune_once` of `rust/src/node.rs`. Of its counters only the result is kept; the others go to the
-- trace.

use trail_stash.Base.{
  Bool, ℕ, ◌+◌, Option, none, some, List, [], ◌∷◌, Bytes, bytes_discrete, if◌then◌else◌, map,
}
use trail_stash.Content.{ContentHash, NamespaceId, forget}
use trail_stash.HashMap
use trail_stash.HashSet
use trail_stash.HashSet.{HashSet}
use trail_stash.Iroh.{Iroh, DocEntry}
use trail_stash.Result.{Result, ok, err}
use trail_stash.Retention.{RetentionEntry, ReleaseReason, release_decisions}
use trail_stash.Subscriptions.{known_namespaces}
use trail_stash.Text.{Text}
use trail_stash.Node.{StashNode, entry_written_ms}
use mathlib.Core.List.{zip}

pub record PruneCandidate : Type 0 where
  pub hash : ContentHash
  pub key : Bytes
  pub written_ms : ℕ

abbrev pub candidate_of : DocEntry → PruneCandidate
candidate_of entry = record {
  hash = entry.content_hash;
  key = entry.key;
  written_ms = entry_written_ms entry;
}

abbrev pub retention_entry : PruneCandidate → RetentionEntry
retention_entry c = record { key = c.key; written_ms = c.written_ms }

-- The hashes of the candidates that are not released.
unfoldable pub kept_hashes : List (PruneCandidate × Option ReleaseReason) → HashSet ContentHash
kept_hashes [] = []
kept_hashes ((c, none) ∷ decided) = (HashSet.insert bytes_discrete c.hash (kept_hashes decided)).0
kept_hashes ((c, some reason) ∷ decided) = kept_hashes decided

-- The hashes that only released candidates name.
unfoldable pub forget_hashes :
    HashSet ContentHash → List (PruneCandidate × Option ReleaseReason) → HashSet ContentHash
forget_hashes kept [] = []
forget_hashes kept ((c, none) ∷ decided) = forget_hashes kept decided
forget_hashes kept ((c, some reason) ∷ decided) =
    let rest = forget_hashes kept decided in
    if HashSet.contains bytes_discrete c.hash kept
    then rest
    else (HashSet.insert bytes_discrete c.hash rest).0

module _ (w : Iroh) where
  -- Drop one reference, and stop chasing a hash that nothing else names.
  unfoldable pub forget_one : NamespaceId → ContentHash → StashNode w → StashNode w × Bool
  forget_one ns hash node =
      let (content, last_reference) = forget ns hash node.content in
      (
        if last_reference
            then record node {
              content = content;
              tracked = HashMap.remove bytes_discrete hash node.tracked;
            }
            else record node { content = content },
        last_reference,
      )

  -- The inner loop over the hashes to forget, with the count of the released blobs.
  unfoldable pub forget_all : NamespaceId → List ContentHash → StashNode w → StashNode w × ℕ
  forget_all ns [] node = (node, 0)
  forget_all ns (hash ∷ hashes) node =
      let (node', last_reference) = forget_one ns hash node in
      let (node'', released) = forget_all ns hashes node' in
      (node'', if last_reference then released + 1 else released)

  -- The candidates of a namespace with the decisions on them.
  unfoldable pub decided :
      ℕ → List DocEntry → StashNode w → List (PruneCandidate × Option ReleaseReason)
  decided now entries node =
      let candidates = map candidate_of entries in
      zip candidates (release_decisions (map retention_entry candidates) node.retention now)

  unfoldable pub prune_namespace : ℕ → NamespaceId → List DocEntry → StashNode w → StashNode w × ℕ
  prune_namespace now ns entries node =
      let list = decided now entries node in
      forget_all ns (forget_hashes (kept_hashes list) list) node

  -- The loop over the namespaces. An error of the replica ends the sweep; what was released
  -- before it stays released.
  unfoldable pub prune_all : ℕ → List NamespaceId → StashNode w → StashNode w × Result Text ℕ
  prune_all now [] node = (node, ok 0)
  prune_all now (ns ∷ namespaces) node =
      let skip = prune_all now namespaces node in
      if HashSet.contains bytes_discrete ns node.handles
      then elim (w.get_many node.docs ns) [
        | err e ↦ (node, err e)
        | ok entries ↦
            let (node', released) = prune_namespace now ns entries node in
            let (node'', rest) = prune_all now namespaces node' in
            (node'', elim rest [ ok more ↦ ok (released + more) | err e ↦ err e ])
      ]
      else skip

  unfoldable pub prune_once : ℕ → StashNode w → StashNode w × Result Text ℕ
  prune_once now node = prune_all now (known_namespaces node.registry) node

  -- A round of `run_prune_loop`, which goes on after an error.
  unfoldable pub prune_tick : ℕ → StashNode w → StashNode w
  prune_tick now node = (prune_once now node).0
