-- ===== src/Tests/Reclaim.antt =====
-- The garbage collection and the fallback wake-up of `rust/src/node.rs` at concrete inputs.
use mathlib.Core.List.{Memᴰ}
use trail_stash.Base.{
  ◌≡◌, ◌≢◌, refl, true, false, some, none, [], ◌∷◌, Bytes, bytes_discrete, arith, ℕ_discrete,
}
use trail_stash.Content.{ContentHash, NamespaceId, is_tracked_for, want, mark_present}
use trail_stash.HashMap
use trail_stash.HashMap.{HashMap}
use trail_stash.HashSet
use trail_stash.HashSet.{HashSet}
use trail_stash.Iroh.{IsCollector}
use trail_stash.Mls.{passthrough}
use trail_stash.Node.{StashNode}
use trail_stash.Node.Linked.{IsValid}
use trail_stash.Node.Run.{Step, Reach, reachable-IsValid}
use trail_stash.Node.Receive.{receive}
use trail_stash.Node.Release.{is_needed, is_dropped}
use trail_stash.Node.Settle.{settle_tick}
use trail_stash.Node.Prune.{decided, prune_namespace}
use trail_stash.Node.Collect.{collect, pruned_freed}
use trail_stash.Node.Settle.Fallback.{settle_tick_fallback}
use mathlib.Core.List.{zip}
use trail_stash.Retention.{from_hours, release_decisions, is_outdated, is_expired, cutoff}
use trail_stash.Retention.Key.{decode_fix_key, position}
use trail_stash.Node.{entry_written_ms}
use trail_stash.Subscriptions
use trail_stash.Subscriptions.{PushSubscription, Platform, wake_targets}
use trail_stash.Tests.Node.{
  store, keep_live, stocked, home, peer, photo, arriving, chased, chasing, tracked_photo,
}
use trail_stash.Text.{text}

keep_live-kept :
    (live : HashSet ContentHash) (h : ContentHash) (b : HashMap ContentHash Bytes)
    → HashSet.contains bytes_discrete h live ≡ true
    → HashMap.get bytes_discrete h (keep_live live b) ≡ HashMap.get bytes_discrete h b
unfolding keep_live HashMap.get
keep_live-kept live h [] e = refl
keep_live-kept live h ((k, bytes) ∷ b) e = ground (arith, keep_live-kept live h b e)

keep_live-freed :
    (live : HashSet ContentHash) (h : ContentHash) (b : HashMap ContentHash Bytes)
    → HashSet.contains bytes_discrete h live ≡ false
    → HashMap.get bytes_discrete h (keep_live live b) ≡ none
unfolding keep_live HashMap.get
keep_live-freed live h [] e = refl
keep_live-freed live h ((k, bytes) ∷ b) e = ground (arith, keep_live-freed live h b e)

pub store-IsCollector : IsCollector store
store-IsCollector = record {
  kept = λ live b h e. keep_live-kept live h b e;
  freed = λ live b h e. keep_live-freed live h b e;
}

-- The photo is stored, referenced and marked.
abbrev holding : StashNode store
holding = (receive store home arriving peer 1000 stocked).0

holding-IsValid : IsValid store holding
holding-IsValid = reachable-IsValid store tt [] passthrough (from_hours 48) holding (
    Reach.next (Reach.next Reach.here (Step.outside tt ((photo, photo) ∷ [])))
      (Step.received home arriving peer 1000))

kept_by_none : is_needed photo (decided store 9000000000 (arriving ∷ []) holding) ≡ false
unfolding decided zip release_decisions bytes_discrete ℕ_discrete is_outdated decode_fix_key
    position is_expired entry_written_ms cutoff receive from_hours
kept_by_none = refl

released_here : is_dropped photo (decided store 9000000000 (arriving ∷ []) holding) ≡ true
unfolding decided zip release_decisions bytes_discrete ℕ_discrete is_outdated decode_fix_key
    position is_expired entry_written_ms cutoff receive from_hours
released_here = refl

nowhere_else : (ns : NamespaceId) → ns ≢ home → is_tracked_for ns photo holding.content ≡ false
unfolding receive is_tracked_for want mark_present HashMap.get HashMap.insert
nowhere_else ns ne = ground arith

pruned_freed_example :
    HashMap.get bytes_discrete photo
      (collect store [] (prune_namespace store 9000000000 home (arriving ∷ []) holding).0).blobs
    ≡ none
unfolding HashSet.contains
pruned_freed_example =
    pruned_freed store store-IsCollector [] 9000000000 home (arriving ∷ []) photo holding
      holding-IsValid kept_by_none released_here nowhere_else refl

-- The namespace of the chased photo has a subscriber.
abbrev phone : PushSubscription
phone = record { platform = Platform.apns; token = text "a" }

abbrev subscribed : StashNode store
subscribed = record chasing {
  registry = (Subscriptions.register home (some phone) Subscriptions.new).0;
}

settle_tick_fallback_example :
    Memᴰ
      (record { namespace = home; targets = wake_targets home subscribed.registry })
      (settle_tick store 31000 subscribed).1
unfolding passthrough wake_targets HashMap.get Subscriptions.register Subscriptions.add_sub
    HashMap.insert bytes_discrete ℕ_discrete HashSet.insert HashSet.contains
settle_tick_fallback_example =
    settle_tick_fallback store 31000 photo chased subscribed tracked_photo refl refl refl
      (λ envelope. refl) refl
