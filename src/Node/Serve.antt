-- ===== src/Node/Serve.antt =====
-- `content_stats`, `content_bytes` and `put_content` of `rust/src/node.rs`.
pub mod Stored
use trail_stash.Base.{ℕ, not, Option, none, Bytes, bytes_discrete, if◌then◌else◌, ite}
use trail_stash.Content.{
  ContentHash, NamespaceId, is_tracked_for, is_present_for, mark_present, missing_count,
  tracked_count,
}
use trail_stash.Iroh.{Iroh}
use trail_stash.Result.{Result, ok, err}
use trail_stash.Subscriptions.{is_known}
use trail_stash.Text.{Text}
use trail_stash.Node.{StashNode}

pub data PutOutcome : Type 0 where
  stored unknown_namespace untracked_hash hash_mismatch : PutOutcome

module _ (w : Iroh) where
  unfoldable pub content_stats : StashNode w → ℕ × ℕ
  content_stats node = (missing_count node.content, tracked_count node.content)

  unfoldable pub content_bytes : NamespaceId → ContentHash → StashNode w → Option Bytes
  content_bytes ns hash node =
      if not (is_present_for ns hash node.content) then none else w.get_bytes node.blobs hash

  -- The upload after its checks. The store keeps what was added, also under another hash.
  unfoldable pub store_bytes :
      ContentHash → Bytes → StashNode w → StashNode w × Result Text PutOutcome
  store_bytes expected bytes node = elim (w.add_bytes node.blobs bytes) [
    | err e ↦ (node, err e)
    | ok (blobs, hash) ↦
        ite (bytes_discrete hash expected)
          (record node { blobs = blobs; content = mark_present expected node.content }, ok stored)
          (record node { blobs = blobs }, ok hash_mismatch)
  ]

  unfoldable pub put_content :
      NamespaceId → ContentHash → Bytes → StashNode w → StashNode w × Result Text PutOutcome
  put_content ns expected bytes node =
      if not (is_known ns node.registry)
      then (node, ok unknown_namespace)
      else if not (is_tracked_for ns expected node.content)
      then (node, ok untracked_hash)
      else ite (bytes_discrete (w.hash_of bytes) expected) (store_bytes expected bytes node)
          (node, ok hash_mismatch)
