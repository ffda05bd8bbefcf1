-- ===== src/Node/Settle/Supplied.antt =====
-- An upload to the node of `rust/src/node.rs` and the next tick of its settle loop.
use mathlib.Core.List.{Memᴰ}
use trail_stash.Base.{
  ℕ, Bool, true, false, ◌≡◌, sym, ap, ◌∙◌, some, Bytes, bytes_discrete, arith, is_empty, unwrap_or,
  subst,
}
use trail_stash.Content.{mark_present, ContentHash, NamespaceId}
use trail_stash.HashMap
use trail_stash.Iroh.{Iroh, IsHolding}
use trail_stash.Mls.{EnvelopeRef, accept}
use trail_stash.Node.{StashNode, TrackedEntry, has_blob, fetch_content, sources}
use trail_stash.Node.Serve.{put_content, stored}
use trail_stash.Node.Serve.Stored.{put_content_stored}
use trail_stash.Node.Settle.{obtain, is_due, settle_live, outstanding, settle_tick}
use trail_stash.Node.Settle.Fallback.{round, settle_all_releases, released_woken, outstanding-get}
use trail_stash.Result.{ok}
use trail_stash.Subscriptions.{wake_targets}

due_present : (now : ℕ) (live : TrackedEntry) → live.woken ≡ false → is_due now true live ≡ true
unfolding is_due
due_present now live unwoken = ground (arith, unwoken)

module _ (w : Iroh) (law : IsHolding w) (now : ℕ) (h : ContentHash) where
  settle_live-blobs :
      (hash : ContentHash) (x : TrackedEntry) (there : Bool) (node : StashNode w)
      → (settle_live w now hash x there node).0.blobs ≡ node.blobs
  unfolding settle_live
  settle_live-blobs hash x there node = ground arith

  obtain-has_blob :
      (hash : ContentHash) (x : TrackedEntry) (node : StashNode w)
      → has_blob w node h ≡ true
      → has_blob w (obtain w now hash x node).0 h ≡ true
  unfolding obtain fetch_content
  obtain-has_blob hash x node e = ground (arith, e, law.keeps_found node.blobs hash h (sources w x))

  round-has_blob :
      (hash : ContentHash) (x : TrackedEntry) (node : StashNode w)
      → has_blob w node h ≡ true
      → has_blob w (round w now hash x node) h ≡ true
  round-has_blob hash x node e =
      let (node', there) = obtain w now hash x node in
      ap (λ b. unwrap_or false (w.has b h)) (settle_live-blobs hash x there node')
      ∙ obtain-has_blob hash x node e

  obtain_there :
      (entry : TrackedEntry) (node : StashNode w)
      → has_blob w node h ≡ true
      → (obtain w now h entry node).1 ≡ true
  unfolding obtain
  obtain_there entry node e = ground (arith, e)

  -- What the store has, the next tick wakes.
  had_woken :
      (entry : TrackedEntry) (node : StashNode w)
      → has_blob w node h ≡ true
      → HashMap.get bytes_discrete h node.tracked ≡ some entry
      → entry.content_present ≡ false
      → entry.woken ≡ false
      → ((envelope : EnvelopeRef) → node.delivery envelope ≡ accept)
      → is_empty (wake_targets entry.namespace node.registry) ≡ false
      → Memᴰ
          (record {
            namespace = entry.namespace;
            targets = wake_targets entry.namespace node.registry;
          })
          (settle_tick w now node).1
  had_woken entry node has tracked missing unwoken admits subscribed =
      let (degraded, m) =
        settle_all_releases w now h entry entry (λ n. has_blob w n h ≡ true) round-has_blob
          (λ n has'.
            ap (λ b. is_due now b entry) (obtain_there entry n has')
            ∙ due_present now entry unwoken)
          (outstanding node.tracked) node (outstanding-get h entry node.tracked tracked missing)
          tracked has in
      released_woken w now h entry node degraded m admits subscribed

  -- An upload that is stored wakes the subscribers of the entry that waits for it: if the hash is tracked without its
  -- bytes and was not woken, the next tick of the settle loop, at whatever time, calls the waker for all subscribers
  -- of the entry's namespace, if there are some, the delivery service admits every envelope, and the store finds what
  -- was added, also after a download.
  pub uploaded_woken :
      (ns : NamespaceId) (bytes : Bytes) (entry : TrackedEntry) (node : StashNode w)
      → (put_content w ns h bytes node).1 ≡ ok stored
      → HashMap.get bytes_discrete h node.tracked ≡ some entry
      → entry.content_present ≡ false
      → entry.woken ≡ false
      → ((envelope : EnvelopeRef) → node.delivery envelope ≡ accept)
      → is_empty (wake_targets entry.namespace node.registry) ≡ false
      → Memᴰ
          (record {
            namespace = entry.namespace;
            targets = wake_targets entry.namespace node.registry;
          })
          (settle_tick w now (put_content w ns h bytes node).0).1
  uploaded_woken ns bytes entry node e tracked missing unwoken admits subscribed =
      let (b', added, _, _, after) = put_content_stored w ns h bytes node e in
      subst
        (λ n.
          Memᴰ
            (record {
              namespace = entry.namespace;
              targets = wake_targets entry.namespace node.registry;
            })
            (settle_tick w now n).1)
        (sym after)
        (had_woken entry (record node { blobs = b'; content = mark_present h node.content })
          (ap (unwrap_or false) (law.finds node.blobs bytes b' h added)) tracked missing unwoken
          admits subscribed)
