-- ===== src/Node/Run.antt =====
-- The states that the node of `rust/src/node.rs` reaches by operations that take effect whole, one after the other,
-- in whatever order. What happens between their sections is in Node/Turns.
use trail_stash.Base.{
  none, some, ◌⊎◌, ℕ, Option, List, [], ◌∷◌, Bytes, bytes_discrete, ◌≡◌, refl, inl, inr, Bool-cases,
  leb, arith,
}
use trail_stash.Content
use trail_stash.Content.{mark_present, ContentHash, NamespaceId}
use trail_stash.Content.Invariant.{new-IsValid}
use trail_stash.HashMap
use trail_stash.HashSet
use trail_stash.Iroh.{Iroh, EndpointId, DocEntry}
use trail_stash.Mls.{DeliveryService}
use trail_stash.Node.{TrackedEntry, StashNode, has_blob, fetch_content}
use trail_stash.Node.Linked.{
  IsValid, receive-IsValid, settle_live-IsValid, forget_all-IsValid, mark_present-IsLinked,
}
use trail_stash.Node.Prune.{prune_namespace, prune_all, prune_once}
use trail_stash.Node.Receive.{receive, watch, handle_event, insert_remote, LiveEvent, insert, other}
use trail_stash.Node.Register.{open_doc, enroll, register, unsubscribe, sync_now}
use trail_stash.Node.Serve.{store_bytes, put_content}
use trail_stash.Node.Settle.{
  outstanding, obtain, settle_live, settle_entry, settle_all, settle_once,
}
use trail_stash.Result.{Result-cases}
use trail_stash.Retention.{RetentionPolicy}
use trail_stash.Subscriptions
use trail_stash.Subscriptions.{PushSubscription}
use trail_stash.Text.{Text}

module _ (w : Iroh) where
  -- The state that `spawn` builds.
  abbrev pub spawned : w.Docs → w.Blobs → DeliveryService → RetentionPolicy → StashNode w
  spawned docs blobs delivery retention = record {
    docs = docs;
    blobs = blobs;
    registry = Subscriptions.new;
    delivery = delivery;
    retention = retention;
    handles = [];
    content = Content.new;
    tracked = [];
    spawned_watchers = [];
  }

  pub obtain-IsValid :
      (now : ℕ) (hash : ContentHash) (entry : TrackedEntry) (node : StashNode w)
      → IsValid w node
      → IsValid w (obtain w now hash entry node).0
  unfolding obtain fetch_content
  obtain-IsValid now hash entry node v = elim (Bool-cases (has_blob w node hash)) [
    | inl e ↦ rw (e, obtain) v
    | inr e ↦ elim (Bool-cases (leb entry.next_attempt_ms now)) [
      | inl f ↦ rw (e, obtain, f) v
      | inr f ↦ rw (e, obtain, f) v
    ]
  ]

  watch-IsValid :
      (ns : NamespaceId) (events : List (Option LiveEvent)) (node : StashNode w)
      → IsValid w node
      → IsValid w (watch w ns events node).0
  unfolding watch handle_event insert_remote
  watch-IsValid ns [] node v = v
  watch-IsValid ns (none ∷ events) node v = v
  watch-IsValid ns (some (insert entry from now) ∷ events) node v =
      watch-IsValid ns events (receive w ns entry from now node).0
        (receive-IsValid w ns entry from now node v)
  watch-IsValid ns (some other ∷ events) node v = watch-IsValid ns events node v

  settle_all-IsValid :
      (now : ℕ) (list : List (ContentHash × TrackedEntry)) (node : StashNode w)
      → IsValid w node
      → IsValid w (settle_all w now list node).0
  unfolding settle_all settle_entry
  settle_all-IsValid now [] node v = v
  settle_all-IsValid now ((hash, entry) ∷ rest) node v =
      let (node', there) = obtain w now hash entry node in
      settle_all-IsValid now rest (settle_live w now hash entry there node').0
        (settle_live-IsValid w now hash entry there node' (obtain-IsValid now hash entry node v))

  pub prune_all-IsValid :
      (now : ℕ) (namespaces : List NamespaceId) (node : StashNode w)
      → IsValid w node
      → IsValid w (prune_all w now namespaces node).0
  unfolding prune_all prune_namespace
  prune_all-IsValid now [] node v = v
  prune_all-IsValid now (ns ∷ namespaces) node v =
      elim (Bool-cases (HashSet.contains bytes_discrete ns node.handles)) [
        | inr e ↦ rw (e, prune_all) (prune_all-IsValid now namespaces node v)
        | inl e ↦ elim (Result-cases (w.get_many node.docs ns)) [
          | inr (msg, f) ↦ rw (e, prune_all, f) v
          | inl (entries, f) ↦
              rw (e, prune_all, f)
                (prune_all-IsValid now namespaces (prune_namespace w now ns entries node).0
                  (forget_all-IsValid w ns _ node v))
        ]
      ]

  pub put_content-ledgers :
      (ns : NamespaceId) (hash : ContentHash) (bytes : Bytes) (node : StashNode w)
      → let after = (put_content w ns hash bytes node).0 in
        ((after.content ≡ node.content) ⊎ (after.content ≡ mark_present hash node.content))
        × (after.tracked ≡ node.tracked)
  unfolding put_content store_bytes
  put_content-ledgers ns hash bytes node = ground arith

  pub register-ledgers :
      (ticket : Text) (sub : Option PushSubscription) (node : StashNode w)
      → let after = (register w ticket sub node).0 in
        (after.content ≡ node.content) × (after.tracked ≡ node.tracked)
  unfolding register open_doc enroll
  register-ledgers ticket sub node = ground arith

  pub sync_now-ledgers :
      (ns : NamespaceId) (peers : List EndpointId) (node : StashNode w)
      → let after = (sync_now w ns peers node).0 in
        (after.content ≡ node.content) × (after.tracked ≡ node.tracked)
  unfolding sync_now
  sync_now-ledgers ns peers node = ground arith

  put_content-IsValid :
      (ns : NamespaceId) (hash : ContentHash) (bytes : Bytes) (node : StashNode w)
      → IsValid w node
      → IsValid w (put_content w ns hash bytes node).0
  put_content-IsValid ns hash bytes node v =
      let (content, tracked) = put_content-ledgers ns hash bytes node in
      elim content [
        | inl e ↦ rw (e, tracked) v
        | inr e ↦ rw (e, tracked) (mark_present-IsLinked node.content node.tracked v hash)
      ]

  register-IsValid :
      (ticket : Text) (sub : Option PushSubscription) (node : StashNode w)
      → IsValid w node
      → IsValid w (register w ticket sub node).0
  register-IsValid ticket sub node v =
      let (content, tracked) = register-ledgers ticket sub node in rw (content, tracked) v

  -- One thing that happens to the node, as if nothing else happened meanwhile: an event of a watcher or a run of
  -- them, a tick of one of the two loops, a call of the control API, or a change of the replica and the store by
  -- their own engines.
  pub data Step (node : StashNode w) : StashNode w → Type 0 where
    received :
        (ns : NamespaceId) (entry : DocEntry) (from : EndpointId) (now : ℕ)
        → Step node (receive w ns entry from now node).0
    watched :
        (ns : NamespaceId) (events : List (Option LiveEvent)) → Step node (watch w ns events node).0
    settled : (now : ℕ) → Step node (settle_once w now node).0
    pruned : (now : ℕ) → Step node (prune_once w now node).0
    put :
        (ns : NamespaceId) (hash : ContentHash) (bytes : Bytes)
        → Step node (put_content w ns hash bytes node).0
    registered :
        (ticket : Text) (sub : Option PushSubscription) → Step node (register w ticket sub node).0
    unsubscribed :
        (ns : NamespaceId) (sub : PushSubscription) → Step node (unsubscribe w ns sub node).0
    synced : (ns : NamespaceId) (peers : List EndpointId) → Step node (sync_now w ns peers node).0
    outside :
        (docs : w.Docs) (blobs : w.Blobs) → Step node (record node { docs = docs; blobs = blobs })

  pub data Reach (start : StashNode w) : StashNode w → Type 0 where
    here : Reach start start
    next : {s t : StashNode w} → Reach start s → Step s t → Reach start t

  pub Step-IsValid : {s t : StashNode w} → Step s t → IsValid w s → IsValid w t
  unfolding settle_once prune_once unsubscribe
  Step-IsValid {s} (received ns entry from now) v = receive-IsValid w ns entry from now s v
  Step-IsValid {s} (watched ns events) v = watch-IsValid ns events s v
  Step-IsValid {s} (settled now) v = settle_all-IsValid now (outstanding s.tracked) s v
  Step-IsValid {s} (pruned now) v = prune_all-IsValid now _ s v
  Step-IsValid {s} (put ns hash bytes) v = put_content-IsValid ns hash bytes s v
  Step-IsValid {s} (registered ticket sub) v = register-IsValid ticket sub s v
  Step-IsValid (unsubscribed ns sub) v = v
  Step-IsValid {s} (synced ns peers) v =
      let (content, tracked) = sync_now-ledgers ns peers s in rw (content, tracked) v
  Step-IsValid (outside docs blobs) v = v

  Reach-IsValid : {s t : StashNode w} → IsValid w s → Reach s t → IsValid w t
  Reach-IsValid v here = v
  Reach-IsValid v (next r st) = Step-IsValid st (Reach-IsValid v r)

  -- As long as every operation takes effect whole, with no other between the locks that it takes, the two ledgers
  -- agree in every state that a fresh node reaches: a hash is tracked by the settle loop exactly if it is tracked by
  -- the index, and is counted as present by the index if the loop counts it so, so whatever the index counts as missing
  -- is tracked by the loop as not there yet; the index itself is valid.
  pub reachable-IsValid :
      (docs : w.Docs) (blobs : w.Blobs) (delivery : DeliveryService) (retention : RetentionPolicy)
      (node : StashNode w)
      → Reach (spawned docs blobs delivery retention) node
      → IsValid w node
  unfolding HashMap.get
  reachable-IsValid docs blobs delivery retention node r =
      Reach-IsValid (record { valid = new-IsValid; distinct = tt; linked = λ h. refl }) r
