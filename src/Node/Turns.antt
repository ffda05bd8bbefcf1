-- ===== src/Node/Turns.antt =====
-- The tasks of `rust/src/node.rs` between their awaits: what one of them does while it holds a lock, so that
-- any order of these sections is what the tasks together may do.
pub mod Orders
pub mod Chased
pub mod Upload
pub mod Uploaded
use mathlib.Core.List.{append-nil}
use trail_stash.Base.{
  leb, ℕ, suc, ◌+◌, ◌≤◌, Bool, true, false, ◌≡◌, refl, none, some, List, [], ◌∷◌, ◌++◌,
  bytes_discrete, arith, any, ite, inl, inr, Option-cases, Bool-cases, if◌then◌else◌,
}
use trail_stash.Content
use trail_stash.Content.{
  ContentIndex, ContentHash, NamespaceId, wanted, lookup_state, mark_present, want, forget,
}
use trail_stash.HashSet.{HashSet}
use trail_stash.Subscriptions.{NamespaceRegistry}
use trail_stash.HashMap
use trail_stash.HashMap.{HashMap, get-remove}
use trail_stash.Iroh.{Iroh, EndpointId, DocEntry}
use trail_stash.Node.{TrackedEntry, StashNode, fetch_content, has_blob}
use trail_stash.Node.Receive.{or_insert, new_entry, receive}
use trail_stash.Node.Prune.{forget_one}
use trail_stash.Node.Settle.{Settled, obtain, settle_live, settle_entry}
use trail_stash.Node.Settle.Wakes.{settle_live_wakes}
use trail_stash.Node.Linked.{lookup_state-want, get-or_insert}
use trail_stash.Content.Forget.{get_state-forget, forget-IsValid}
use trail_stash.Content.Invariant.{IsValid, want-IsValid, mark_present-IsValid}
use trail_stash.Node.Settle.Once.{is_woken, releases, settle_live-woken}

module _ (w : Iroh) where
  -- The sections, with what the task carries into them, however old it is.
  pub data Section : Type 0 where
    -- of the watcher: the reference, the tracked entry, and the mark, which an upload makes too
    wants : NamespaceId → ContentHash → Section
    tracks : ContentHash → TrackedEntry → Section
    marks : ContentHash → Section
    -- of the settle loop: the download, and what the round writes
    fetches : ContentHash → TrackedEntry → Section
    writes : ℕ → ContentHash → TrackedEntry → Bool → Section
    -- of the sweep: the reference, and the tracked entry
    forgets : NamespaceId → ContentHash → Section
    untracks : ContentHash → Section
    -- of a registration, an upload, a synchronization, the collection, and the engines of the crates: what is
    -- neither the content index nor the map of the tracked entries
    elsewhere :
        w.Docs → w.Blobs → NamespaceRegistry → HashSet NamespaceId → List NamespaceId → Section

  -- The sections of one hash of the sweep.
  unfoldable pub forget_sections : NamespaceId → ContentHash → Bool → List Section
  forget_sections ns hash last_reference =
      forgets ns hash ∷ (if last_reference then untracks hash ∷ [] else [])

  -- The state after a section, and what it releases to be woken.
  unfoldable pub perform : Section → StashNode w → StashNode w × List Settled
  perform (wants ns hash) node = (record node { content = want ns hash node.content }, [])
  perform (tracks hash entry) node =
      (record node { tracked = (or_insert hash entry node.tracked).0 }, [])
  perform (marks hash) node = (record node { content = mark_present hash node.content }, [])
  perform (fetches hash entry) node = ((fetch_content w hash entry node).0, [])
  perform (writes now hash entry present) node = settle_live w now hash entry present node
  perform (forgets ns hash) node = (record node { content = (forget ns hash node.content).0 }, [])
  perform (untracks hash) node =
      (record node { tracked = HashMap.remove bytes_discrete hash node.tracked }, [])
  perform (elsewhere docs blobs registry handles watched) node = (
    record node {
      docs = docs;
      blobs = blobs;
      registry = registry;
      handles = handles;
      spawned_watchers = watched;
    },
    [],
  )

  unfoldable pub perform_all : List Section → StashNode w → StashNode w × List Settled
  perform_all [] node = (node, [])
  perform_all (s ∷ sections) node =
      let (node', first) = perform s node in
      let (node'', more) = perform_all sections node' in (node'', first ++ more)

  -- The sections of one event of the watcher, and of one round of the settle loop.
  unfoldable pub receive_sections : NamespaceId → DocEntry → EndpointId → ℕ → Bool → List Section
  receive_sections ns entry from now present =
      wants ns entry.content_hash
      ∷ tracks entry.content_hash (new_entry w ns entry from now present)
      ∷ (if present then marks entry.content_hash ∷ [] else [])

  unfoldable pub settle_sections : ℕ → ContentHash → TrackedEntry → StashNode w → List Section
  settle_sections now hash entry node =
      if has_blob w node hash
      then writes now hash entry true ∷ []
      else if leb entry.next_attempt_ms now
      then fetches hash entry ∷ writes now hash entry (fetch_content w hash entry node).1 ∷ []
      else writes now hash entry false ∷ []

  -- Where no other task comes between, the sections of a task do what the operation does as one step: an event of
  -- the watcher, a round of the settle loop with what it releases, and a hash that the sweep forgets.
  pub sections_alone :
      (ns : NamespaceId) (doc_entry : DocEntry) (from : EndpointId) (now : ℕ) (hash : ContentHash)
      (entry : TrackedEntry) (node : StashNode w)
      → ((perform_all
            (receive_sections ns doc_entry from now (has_blob w node doc_entry.content_hash))
            node).0
          ≡ (receive w ns doc_entry from now node).0)
        × ((perform_all (settle_sections now hash entry node) node).0
            ≡ (settle_entry w now hash entry node).0)
        × ((perform_all (settle_sections now hash entry node) node).1
            ≡ (settle_entry w now hash entry node).1)
        × ((perform_all (forget_sections ns hash (forget ns hash node.content).1) node).0
            ≡ (forget_one w ns hash node).0)
  unfolding perform_all perform receive receive_sections forget_one forget_sections settle_sections
      settle_entry obtain fetch_content
  sections_alone ns doc_entry from now hash entry node = (
    ground arith,
    ground arith,
    ground (
      arith,
      append-nil (settle_live w now hash entry true node).1,
      append-nil (settle_live w now hash entry false node).1,
      append-nil
          (settle_live w now hash entry (fetch_content w hash entry node).1
            (fetch_content w hash entry node).0).1,
    ),
    ground arith,
  )
