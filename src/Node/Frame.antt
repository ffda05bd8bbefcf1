-- ===== src/Node/Frame.antt =====
-- The registry, the open namespaces and the watchers of the node of `rust/src/node.rs`, which most operations leave
-- alone.
use trail_stash.Base.{
  ℕ, Bool, ◌≡◌, refl, ◌∙◌, Option, none, some, List, [], ◌∷◌, Bytes, bytes_discrete, arith, inl,
  inr, Bool-cases,
}
use trail_stash.Content.{ContentHash, NamespaceId}
use trail_stash.HashSet
use trail_stash.HashSet.{HashSet, contains-insert}
use trail_stash.Iroh.{Iroh, EndpointId}
use trail_stash.Node.{TrackedEntry, StashNode, fetch_content}
use trail_stash.Node.Prune.{forget_one, forget_all, prune_namespace, prune_all}
use trail_stash.Node.Receive.{receive, watch, handle_event, insert_remote, LiveEvent, insert, other}
use trail_stash.Node.Register.{sync_now}
use trail_stash.Node.Serve.{store_bytes, put_content}
use trail_stash.Node.Settle.{obtain, settle_live, settle_entry, settle_all}
use trail_stash.Subscriptions.{NamespaceRegistry}
use trail_stash.Result.{Result-cases}

module _ (w : Iroh) where
  -- What the other operations leave alone.
  abbrev pub Frame : Type 0
  Frame = NamespaceRegistry × HashSet NamespaceId × List NamespaceId

  abbrev pub frame : StashNode w → Frame
  frame node = (node.registry, node.handles, node.spawned_watchers)

  pub obtain-frame :
      (now : ℕ) (hash : ContentHash) (entry : TrackedEntry) (node : StashNode w)
      → frame (obtain w now hash entry node).0 ≡ frame node
  unfolding obtain fetch_content
  obtain-frame now hash entry node = ground arith

  pub settle_live-frame :
      (now : ℕ) (hash : ContentHash) (entry : TrackedEntry) (there : Bool) (node : StashNode w)
      → frame (settle_live w now hash entry there node).0 ≡ frame node
  unfolding settle_live
  settle_live-frame now hash entry there node = ground arith

  pub settle_all-frame :
      (now : ℕ) (list : List (ContentHash × TrackedEntry)) (node : StashNode w)
      → frame (settle_all w now list node).0 ≡ frame node
  unfolding settle_all settle_entry
  settle_all-frame now [] node = refl
  settle_all-frame now ((hash, entry) ∷ rest) node =
      let (node', there) = obtain w now hash entry node in
      settle_all-frame now rest (settle_live w now hash entry there node').0
      ∙ settle_live-frame now hash entry there node'
      ∙ obtain-frame now hash entry node

  pub forget_all-frame :
      (ns : NamespaceId) (hashes : List ContentHash) (node : StashNode w)
      → frame (forget_all w ns hashes node).0 ≡ frame node
  unfolding forget_all forget_one
  forget_all-frame ns [] node = refl
  forget_all-frame ns (hash ∷ hashes) node =
      forget_all-frame ns hashes (forget_one w ns hash node).0 ∙ ground arith

  pub prune_all-frame :
      (now : ℕ) (namespaces : List NamespaceId) (node : StashNode w)
      → frame (prune_all w now namespaces node).0 ≡ frame node
  unfolding prune_all prune_namespace
  prune_all-frame now [] node = refl
  prune_all-frame now (ns ∷ namespaces) node =
      elim (Bool-cases (HashSet.contains bytes_discrete ns node.handles)) [
        | inr e ↦ rw (e, prune_all) (prune_all-frame now namespaces node)
        | inl e ↦ elim (Result-cases (w.get_many node.docs ns)) [
          | inr (msg, f) ↦ rw (e, prune_all, f) refl
          | inl (entries, f) ↦
              rw (e, prune_all, f)
                (prune_all-frame now namespaces (prune_namespace w now ns entries node).0
                  ∙ forget_all-frame ns _ node)
        ]
      ]

  pub watch-frame :
      (ns : NamespaceId) (events : List (Option LiveEvent)) (node : StashNode w)
      → frame (watch w ns events node).0 ≡ frame node
  unfolding watch handle_event insert_remote receive
  watch-frame ns [] node = refl
  watch-frame ns (none ∷ events) node = refl
  watch-frame ns (some (insert entry from now) ∷ events) node =
      watch-frame ns events (receive w ns entry from now node).0
  watch-frame ns (some other ∷ events) node = watch-frame ns events node

  pub put_content-frame :
      (ns : NamespaceId) (hash : ContentHash) (bytes : Bytes) (node : StashNode w)
      → frame (put_content w ns hash bytes node).0 ≡ frame node
  unfolding put_content store_bytes
  put_content-frame ns hash bytes node = ground arith

  pub sync_now-frame :
      (ns : NamespaceId) (peers : List EndpointId) (node : StashNode w)
      → frame (sync_now w ns peers node).0 ≡ frame node
  unfolding sync_now
  sync_now-frame ns peers node = ground arith
