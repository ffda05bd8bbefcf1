-- ===== src/Iroh.antt =====
-- What `rust/src/node.rs` uses of the iroh crates: the blob store, the downloader, the docs
-- replica, tickets and hashes. Nothing of it is implemented in the repository, so it is a parameter.
use trail_stash.Base.{ℕ, Bool, true, false, Option, none, some, bytes_discrete, ◌≡◌, List, Bytes}
use trail_stash.Content.{ContentHash, NamespaceId}
use trail_stash.HashSet
use trail_stash.HashSet.{HashSet}
use trail_stash.Result.{Result}
use trail_stash.Text.{Text}

-- `iroh::EndpointId`, by its 32 bytes.
abbrev pub EndpointId : Type 0
EndpointId = Bytes

-- What `iroh_docs::Entry` gives: the key, the content hash, and the timestamp in microseconds.
pub record DocEntry : Type 0 where
  pub key : Bytes
  pub content_hash : ContentHash
  pub timestamp : ℕ

pub record Iroh : Type 1 where
  pub Blobs : Type 0
  pub Docs : Type 0
  pub Ticket : Type 0
  -- `blobs().has(hash)`, where `none` is an error.
  pub has : Blobs → ContentHash → Option Bool
  pub get_bytes : Blobs → ContentHash → Option Bytes
  -- `add_bytes`: the store after it and the hash of the tag, or the error's text.
  pub add_bytes : Blobs → Bytes → Result Text (Blobs × ContentHash)
  -- `downloader.download(..)` under its timeout: the store after it, and whether it was `Ok(Ok(()))`.
  pub download : Blobs → ContentHash → List EndpointId → Blobs × Bool
  -- A sweep of the store, with the set of hashes that are live.
  pub collect : HashSet ContentHash → Blobs → Blobs
  -- `Hash::new`
  pub hash_of : Bytes → ContentHash
  -- `hash.parse()`
  pub parse_hash : Text → Option ContentHash
  -- `EndpointId::from_bytes`
  pub endpoint_id : Bytes → Option EndpointId
  pub parse_ticket : Text → Result Text Ticket
  pub ticket_namespace : Ticket → NamespaceId
  pub import_namespace : Docs → NamespaceId → Result Text Docs
  -- `doc.start_sync(peers)`
  pub start_sync : Docs → NamespaceId → List EndpointId → Result Text Docs
  -- `doc.get_many(all)` drained; an error of the stream is an error of the whole.
  pub get_many : Docs → NamespaceId → Result Text (List DocEntry)

-- The documented behaviour of a content-addressed store that `put_content` and `content_bytes` rely on:
-- what was added is found under its hash.
pub record IsBlobStore (w : Iroh) : Type 0 where
  pub added :
      (b : w.Blobs) (bytes : Bytes) (b' : w.Blobs) (h : ContentHash)
      → w.add_bytes b bytes ≡ Result.ok (b', h)
      → (h ≡ w.hash_of bytes) × (w.get_bytes b' h ≡ some bytes)

abbrev pub is_stored : Option Bytes → Bool
is_stored none = false
is_stored (some bytes) = true

-- The documented behaviour of the sweep: what is live stays, and nothing else does.
pub record IsCollector (w : Iroh) : Type 0 where
  pub kept :
      (live : HashSet ContentHash) (b : w.Blobs) (h : ContentHash)
      → HashSet.contains bytes_discrete h live ≡ true
      → w.get_bytes (w.collect live b) h ≡ w.get_bytes b h
  pub freed :
      (live : HashSet ContentHash) (b : w.Blobs) (h : ContentHash)
      → HashSet.contains bytes_discrete h live ≡ false
      → w.get_bytes (w.collect live b) h ≡ none

-- The documented behaviour of the downloader and of `has`: a download that succeeds has stored the content,
-- none loses content that is stored, and what is there can be read.
pub record IsDownloader (w : Iroh) : Type 0 where
  pub downloaded :
      (b : w.Blobs) (h : ContentHash) (peers : List EndpointId)
      → (w.download b h peers).1 ≡ true
      → is_stored (w.get_bytes (w.download b h peers).0 h) ≡ true
  pub keeps :
      (b : w.Blobs) (h k : ContentHash) (peers : List EndpointId)
      → is_stored (w.get_bytes b k) ≡ true
      → is_stored (w.get_bytes (w.download b h peers).0 k) ≡ true
  pub had :
      (b : w.Blobs) (h : ContentHash) → w.has b h ≡ some true → is_stored (w.get_bytes b h) ≡ true

-- The documented behaviour of the store that nothing but a collection takes content from it: an upload and a
-- download leave every content that is stored under its own hash.
pub record IsDurable (w : Iroh) : Type 0 where
  pub adds :
      (b : w.Blobs) (bytes : Bytes) (b' : w.Blobs) (h k : ContentHash) (x : Bytes)
      → w.add_bytes b bytes ≡ Result.ok (b', h)
      → w.hash_of x ≡ k
      → w.get_bytes b k ≡ some x
      → w.get_bytes b' k ≡ some x
  pub downloads :
      (b : w.Blobs) (h k : ContentHash) (peers : List EndpointId) (x : Bytes)
      → w.hash_of x ≡ k
      → w.get_bytes b k ≡ some x
      → w.get_bytes (w.download b h peers).0 k ≡ some x

-- The documented behaviour of `has`: it finds what was added, and a download takes nothing away.
pub record IsHolding (w : Iroh) : Type 0 where
  pub finds :
      (b : w.Blobs) (bytes : Bytes) (b' : w.Blobs) (h : ContentHash)
      → w.add_bytes b bytes ≡ Result.ok (b', h)
      → w.has b' h ≡ some true
  pub keeps_found :
      (b : w.Blobs) (h k : ContentHash) (peers : List EndpointId)
      → w.has b k ≡ some true
      → w.has (w.download b h peers).0 k ≡ some true
