-- ===== src/Node/Receive/Wakes.antt =====
-- When the watcher of `rust/src/node.rs` wakes subscribers on an arriving entry, and when not.
use trail_stash.Base.{ℕ, true, none, some, bytes_discrete, ◌≡◌, arith}
use trail_stash.Content.{ContentHash, NamespaceId}
use trail_stash.HashMap
use trail_stash.HashMap.{HashMap, get-insert}
use trail_stash.Iroh.{Iroh, EndpointId, DocEntry}
use trail_stash.Node.{TrackedEntry, StashNode, has_blob}
use trail_stash.Node.Receive.{or_insert, new_entry, receive}

module _ (w : Iroh) (ns : NamespaceId) (entry : DocEntry) (from : EndpointId) (now : ℕ)
    (node : StashNode w) where
  abbrev hash : ContentHash
  hash = entry.content_hash

  -- A new entry whose bytes are in the store already when its record arrives wakes nobody: it is
  -- tracked as woken.
  pub receive_present :
      has_blob w node hash ≡ true
      → HashMap.get bytes_discrete hash node.tracked ≡ none
      → ((receive w ns entry from now node).1 ≡ none)
        × (HashMap.get bytes_discrete hash (receive w ns entry from now node).0.tracked
            ≡ some (new_entry w ns entry from now true))
  unfolding receive or_insert new_entry
  receive_present p q = (
    ground arith,
    ground (
      arith,
      get-insert bytes_discrete hash hash (new_entry w ns entry from now true) node.tracked,
    ),
  )

  -- A tracked hash keeps its entry when its record arrives again.
  pub receive_keeps :
      (known : TrackedEntry)
      → HashMap.get bytes_discrete hash node.tracked ≡ some known
      → (receive w ns entry from now node).0.tracked ≡ node.tracked
  unfolding receive or_insert
  receive_keeps known e = ground arith
