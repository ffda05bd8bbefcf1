-- ===== src/Tests/Sweep.antt =====
-- The whole sweep of `rust/src/node.rs` at concrete inputs.
use mathlib.Core.List.Perm as ListPerm
use mathlib.Core.List.{zip}
use trail_stash.Base.{
  false, ite, ◌+◌, ◌≡◌, refl, true, ◌&&◌, none, [], ◌∷◌, bytes_discrete, ℕ_discrete, if◌then◌else◌,
  ◌⊎◌,
}
use trail_stash.Content.{
  ContentHash, NamespaceId, is_tracked_for, want, forget, drop_reference, or_wanted,
}
use trail_stash.Content.Invariant.{new-IsValid}
use trail_stash.HashMap
use trail_stash.HashSet
use trail_stash.Iroh.{Iroh, DocEntry}
use trail_stash.Mls.{passthrough}
use trail_stash.Node.{StashNode, entry_written_ms}
use trail_stash.Node.Linked.{IsValid, receive-IsValid}
use trail_stash.Node.Prune.{
  prune_once, prune_all, prune_namespace, decided, kept_hashes, forget_hashes, forget_all,
  forget_one,
}
use trail_stash.Node.Receive.{receive}
use trail_stash.Node.Run.{spawned}
use trail_stash.Node.Serve.{content_stats}
use trail_stash.Node.Sweep.{keeps, prune_once_releases}
use trail_stash.Node.Sweep.Again.{prune_once_again}
use trail_stash.Node.Sweep.Answer.{prune_once_answer}
use trail_stash.Node.Sweep.Order.{prune_namespace_order}
use trail_stash.Node.Release.{is_needed, is_dropped}
use trail_stash.Node.Sweep.Stale.{stale_listing}
use trail_stash.Node.Sweep.Stopped.{Failed, IsSwept, IsUntouched, prune_once_stopped}
use trail_stash.Result.{ok, err}
use trail_stash.Retention.{from_hours, release_decisions, is_outdated, is_expired, cutoff}
use trail_stash.Retention.Key.{decode_fix_key, position}
use trail_stash.Subscriptions
use trail_stash.Subscriptions.{known_namespaces, is_known}
use trail_stash.Tests.Node.{store, home, photo, peer, arriving}
use trail_stash.Text.{text}

-- The replica lists the one record of the photo.
abbrev listing : Iroh
listing = record store { get_many = λ docs ns. ok (arriving ∷ []) }

-- The records of every other namespace cannot be read.
abbrev failing : Iroh
failing = record store {
  get_many = λ docs ns. ite (bytes_discrete ns home) (ok (arriving ∷ [])) (err (text "gone"));
}

abbrev opened : (w : Iroh) → w.Docs → w.Blobs → StashNode w
opened w docs blobs = record (spawned w docs blobs passthrough (from_hours 48)) {
  registry = (Subscriptions.register home none Subscriptions.new).0;
  handles = home ∷ [];
}

opened-IsValid : (w : Iroh) (docs : w.Docs) (blobs : w.Blobs) → IsValid w (opened w docs blobs)
unfolding HashMap.get
opened-IsValid w docs blobs = record { valid = new-IsValid; distinct = tt; linked = λ h. refl }

abbrev tracking : StashNode listing
tracking = (receive listing home arriving peer 1000 (opened listing tt [])).0

tracking-IsValid : IsValid listing tracking
tracking-IsValid =
    receive-IsValid listing home arriving peer 1000 (opened listing tt [])
      (opened-IsValid listing tt [])

one_released : (prune_once listing 9000000000 tracking).1 ≡ ok 1
unfolding prune_once known_namespaces prune_all HashSet.contains prune_namespace decided zip
    release_decisions bytes_discrete ℕ_discrete is_outdated decode_fix_key position is_expired
    entry_written_ms cutoff receive from_hours kept_hashes forget_hashes HashSet.insert forget_all
    forget_one forget drop_reference HashMap.get HashMap.insert want or_wanted HashSet.remove
    HashSet.erase Subscriptions.register HashMap.remove
one_released = refl

prune_once_releases_example :
    is_tracked_for home photo (prune_once listing 9000000000 tracking).0.content ≡ (
      is_tracked_for home photo tracking.content
      && (if is_known home tracking.registry
          then keeps listing 9000000000 home photo tracking
          else true))
prune_once_releases_example =
    prune_once_releases listing 9000000000 tracking 1 tracking-IsValid one_released home photo

prune_once_answer_example :
    (content_stats listing tracking).1
    ≡ 1 + (content_stats listing (prune_once listing 9000000000 tracking).0).1
prune_once_answer_example =
    prune_once_answer listing 9000000000 tracking 1 tracking-IsValid one_released

prune_once_again_example :
    (prune_once listing 9000000000 (prune_once listing 9000000000 tracking).0).1 ≡ ok 0
prune_once_again_example =
    prune_once_again listing 9000000000 tracking 1 tracking-IsValid one_released

-- A second record, which names the photo too and is kept.
abbrev recent : DocEntry
recent = record arriving { timestamp = 9000000000000 }

prune_namespace_order_example :
    ((ns' : NamespaceId) (h : ContentHash)
      → is_tracked_for ns' h
          (prune_namespace listing 9000000000 home (arriving ∷ recent ∷ []) tracking).0.content
        ≡ is_tracked_for ns' h
            (prune_namespace listing 9000000000 home (recent ∷ arriving ∷ []) tracking).0.content)
    × ((prune_namespace listing 9000000000 home (arriving ∷ recent ∷ []) tracking).1
        ≡ (prune_namespace listing 9000000000 home (recent ∷ arriving ∷ []) tracking).1)
prune_namespace_order_example =
    prune_namespace_order listing 9000000000 home (arriving ∷ recent ∷ []) (recent ∷ arriving ∷ [])
      tracking tracking-IsValid (ListPerm.swap recent arriving [])

-- A node that knows two namespaces, and has seen the photo in the one that can be read.
abbrev halfway : StashNode failing
halfway =
    (receive failing home arriving peer 1000 (record (opened failing tt []) {
      registry =
          (Subscriptions.register home none
            (Subscriptions.register photo none Subscriptions.new).0).0;
      handles = home ∷ photo ∷ [];
    })).0

halfway-IsValid : IsValid failing halfway
halfway-IsValid = receive-IsValid failing home arriving peer 1000 _ (opened-IsValid failing tt [])

stuck : (prune_once failing 9000000000 halfway).1 ≡ err (text "gone")
unfolding prune_once known_namespaces prune_all HashSet.contains prune_namespace decided zip
    release_decisions bytes_discrete ℕ_discrete is_outdated decode_fix_key position is_expired
    entry_written_ms cutoff receive from_hours kept_hashes forget_hashes HashSet.insert forget_all
    forget_one forget drop_reference HashMap.get HashMap.insert want or_wanted HashSet.remove
    HashSet.erase Subscriptions.register HashMap.remove
stuck = refl

prune_once_stopped_example :
    Failed failing 9000000000 (known_namespaces halfway.registry) halfway (text "gone")
    × ((ns : NamespaceId)
        → IsSwept failing 9000000000 (prune_once failing 9000000000 halfway).0 halfway ns
          ⊎ IsUntouched failing 9000000000 (prune_once failing 9000000000 halfway).0 halfway ns)
prune_once_stopped_example =
    prune_once_stopped failing 9000000000 halfway (text "gone") halfway-IsValid stuck

-- The record of the photo is to be released, and a second one of the same photo arrives.
abbrev arrived : StashNode listing
arrived = (receive listing home recent peer 1000 (opened listing tt [])).0

dropped_in_listing :
    (is_needed photo (decided listing 9000000000 (arriving ∷ []) arrived) ≡ false)
    × (is_dropped photo (decided listing 9000000000 (arriving ∷ []) arrived) ≡ true)
    × (is_needed photo (decided listing 9000000000 (recent ∷ arriving ∷ []) arrived) ≡ true)
unfolding decided zip release_decisions bytes_discrete ℕ_discrete is_outdated decode_fix_key
    position is_expired entry_written_ms cutoff receive from_hours
dropped_in_listing = (refl, refl, refl)

stale_listing_example :
    (is_tracked_for home photo
        (prune_namespace listing 9000000000 home (arriving ∷ []) arrived).0.content
      ≡ false)
    × (is_tracked_for home photo
          (prune_namespace listing 9000000000 home (recent ∷ arriving ∷ []) arrived).0.content
        ≡ true)
stale_listing_example =
    stale_listing listing home recent peer 1000 9000000000 (arriving ∷ []) (opened listing tt [])
      (opened-IsValid listing tt []) dropped_in_listing.0 dropped_in_listing.1 dropped_in_listing.2
