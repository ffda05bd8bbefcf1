-- ===== src/Node/Sweep/Stale.antt =====
-- A record that the watcher of `rust/src/node.rs` handles after the sweep has read the records of its namespace.
use trail_stash.Base.{ℕ, true, false, ◌≡◌, List, ◌∷◌, arith}
use trail_stash.Content.{NamespaceId, is_tracked_for, want}
use trail_stash.Content.Laws.{want_effect, mark_present_effect}
use trail_stash.Iroh.{Iroh, DocEntry, EndpointId}
use trail_stash.Node.{StashNode}
use trail_stash.Node.Linked.{IsValid, receive-IsValid}
use trail_stash.Node.Prune.{decided, prune_namespace}
use trail_stash.Node.Receive.{receive}
use trail_stash.Node.Release.{is_needed, is_dropped, prune_namespace_effect}

module _ (w : Iroh) where
  received_tracked :
      (ns : NamespaceId) (entry : DocEntry) (from : EndpointId) (now : ℕ) (node : StashNode w)
      → is_tracked_for ns entry.content_hash (receive w ns entry from now node).0.content ≡ true
  unfolding receive
  received_tracked ns entry from now node =
      let hash = entry.content_hash in
      ground (
        arith,
        (want_effect ns hash node.content ns hash).0,
        (mark_present_effect hash (want ns hash node.content) ns hash).0,
      )

  -- A record arrives after the sweep has read the records of its namespace and before it forgets, and names a hash
  -- that among those only records which are released name: then the sweep takes the reference that the new record
  -- just made, although it would have stayed had the sweep read the new record, which it keeps.
  pub stale_listing :
      (ns : NamespaceId) (entry : DocEntry) (from : EndpointId) (arrived now : ℕ)
      (entries : List DocEntry) (node : StashNode w)
      → IsValid w node
      → let hash = entry.content_hash in
        let after = (receive w ns entry from arrived node).0 in
        is_needed hash (decided w now entries after) ≡ false
        → is_dropped hash (decided w now entries after) ≡ true
        → is_needed hash (decided w now (entry ∷ entries) after) ≡ true
        → (is_tracked_for ns hash (prune_namespace w now ns entries after).0.content ≡ false)
          × (is_tracked_for ns hash (prune_namespace w now ns (entry ∷ entries) after).0.content
              ≡ true)
  stale_listing ns entry from arrived now entries node v needed dropped kept =
      let hash = entry.content_hash in
      let after = (receive w ns entry from arrived node).0 in
      let v' = receive-IsValid w ns entry from arrived node v in
      (
        ground (arith, needed, dropped, prune_namespace_effect w now ns entries after ns hash v'),
        ground (
          arith,
          kept,
          received_tracked ns entry from arrived node,
          prune_namespace_effect w now ns (entry ∷ entries) after ns hash v',
        ),
      )
