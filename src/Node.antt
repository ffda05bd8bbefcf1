-- ===== src/Node.antt =====
-- `StashNode` of `rust/src/node.rs`. Each operation is one step on the state: what other tasks may do
-- between its awaits is not modelled, and time is an argument.

pub mod Receive
pub mod Settle
pub mod Prune
pub mod Serve
pub mod Register
pub mod Linked
pub mod Run
pub mod Spawn
pub mod Release
pub mod Collect
pub mod Turns
pub mod Sweep
pub mod Watchers
pub mod Abstract
pub mod Frame
pub mod Watched
use trail_stash.Base.{
  ℕ, ◌+◌, ◌*◌, ◌/◌, ◌^◌, Bool, true, false, Option, none, some, List, [], ◌∷◌, Bytes,
  bytes_discrete, length, min, saturating_mul, ◌==◌, unwrap_or, if◌then◌else◌, ite, is_empty, ◌>>=◌,
}
use trail_stash.Content.{ContentIndex, ContentHash, NamespaceId}
use trail_stash.HashMap.{HashMap}
use trail_stash.HashSet.{HashSet}
use trail_stash.Iroh.{Iroh, EndpointId, DocEntry}
use trail_stash.Mls.{EnvelopeRef, Admission, accept, reject, DeliveryService}
use trail_stash.Retention.{RetentionPolicy}
use trail_stash.Retention.Key.{FixKey, decode_fix_key}
use trail_stash.Subscriptions.{NamespaceRegistry, PushSubscription, wake_targets}

abbrev pub wake_fallback_ms : ℕ
wake_fallback_ms = 30000

unfoldable pub entry_written_ms : DocEntry → ℕ
entry_written_ms entry = entry.timestamp / 1000

pub record TrackedEntry : Type 0 where
  pub namespace : NamespaceId
  pub author : Bytes
  pub delivered_by : EndpointId
  pub seq : ℕ
  pub first_seen_ms : ℕ
  pub content_present : Bool
  pub woken : Bool
  pub next_attempt_ms : ℕ
  pub attempts : ℕ

-- `BASE_MS.saturating_mul(1 << attempts.min(7)).min(CEILING_MS)`
unfoldable pub backoff_ms : ℕ → ℕ
backoff_ms attempts = min (saturating_mul 500 (2 ^ min attempts 7)) 60000

-- The endpoint, the router and the gossip handle of the struct never change after `spawn`, and the
-- waker is an effect. `spawned_watchers` is no field of the struct: it logs the namespace of every call of
-- `spawn_watch`, and a watcher that ends is not taken out of it.
pub record StashNode (w : Iroh) : Type 0 where
  pub docs : w.Docs
  pub blobs : w.Blobs
  pub registry : NamespaceRegistry
  pub delivery : DeliveryService
  pub retention : RetentionPolicy
  pub handles : HashSet NamespaceId
  pub content : ContentIndex
  pub tracked : HashMap ContentHash TrackedEntry
  pub spawned_watchers : List NamespaceId

-- One call of `Waker::wake`.
pub record Wake : Type 0 where
  pub namespace : NamespaceId
  pub targets : List PushSubscription

unfoldable pub decode_author_seq : Bytes → Bytes × ℕ
decode_author_seq key = elim (decode_fix_key key) [ none ↦ ([], 0) | some k ↦ (k.author, k.seq) ]

module _ (w : Iroh) where
  -- `blobs().has(hash).await.unwrap_or(false)`
  abbrev pub has_blob : StashNode w → ContentHash → Bool
  has_blob node hash = unwrap_or false (w.has node.blobs hash)

  -- The envelope that `wake_for` shows to the delivery service.
  unfoldable pub envelope_of : ContentHash → TrackedEntry → Bool → StashNode w → EnvelopeRef
  envelope_of hash entry degraded node = record {
    namespace = entry.namespace;
    author = entry.author;
    seq = entry.seq;
    bytes = if degraded then [] else unwrap_or [] (w.get_bytes node.blobs hash);
  }

  -- `wake_for`: the call of the waker, if there is one.
  unfoldable pub wake_for : ContentHash → TrackedEntry → Bool → StashNode w → Option Wake
  wake_for hash entry degraded node = elim (node.delivery (envelope_of hash entry degraded node)) [
    | accept ↦
        let targets = wake_targets entry.namespace node.registry in
        if is_empty targets
        then none
        else some (record { namespace = entry.namespace; targets = targets })
    | reject reason ↦ none
  ]

  -- The peers that `fetch_content` asks.
  unfoldable pub sources : TrackedEntry → List EndpointId
  sources entry =
      if length entry.author == 32
      then elim (w.endpoint_id entry.author) [
        | none ↦ entry.delivered_by ∷ []
        | some author ↦
            ite (bytes_discrete author entry.delivered_by) (entry.delivered_by ∷ [])
              (entry.delivered_by ∷ author ∷ [])
      ]
      else entry.delivered_by ∷ []

  unfoldable pub fetch_content : ContentHash → TrackedEntry → StashNode w → StashNode w × Bool
  fetch_content hash entry node =
      let (blobs, done) = w.download node.blobs hash (sources entry) in
      (record node { blobs = blobs }, done)
