-- ===== src/Tests/Converges.antt =====
-- The settle loop of `rust/src/node.rs` over a store whose downloads succeed.
use trail_stash.Base.{◌≡◌, refl, true, false, some, [], bytes_discrete, arith, ℕ_discrete}
use trail_stash.Content.{is_tracked_for, want}
use trail_stash.HashMap
use trail_stash.HashMap.{get-insert}
use trail_stash.HashSet
use trail_stash.Iroh.{Iroh, IsDownloader, is_stored}
use trail_stash.Mls.{passthrough}
use trail_stash.Node.{StashNode, TrackedEntry}
use trail_stash.Node.Linked.{IsValid}
use trail_stash.Node.Receive.{receive, new_entry, or_insert}
use trail_stash.Node.Run.{spawned, Step, Reach, reachable-IsValid}
use trail_stash.Node.Serve.{content_bytes}
use trail_stash.Node.Settle.{settle_once}
use trail_stash.Node.Settle.Converges.{settle_once_serves}
use trail_stash.Retention.{from_hours}
use trail_stash.Tests.Node.{store, home, photo, peer, arriving}

abbrev peered : Iroh
peered = record store { download = λ b h peers. (HashMap.insert bytes_discrete h h b, true) }

peered-IsDownloader : IsDownloader peered
peered-IsDownloader = record {
  downloaded = λ b h peers e. ground (arith, get-insert bytes_discrete h h h b);
  keeps = λ b h k peers e. ground (arith, e, get-insert bytes_discrete h k h b);
  had = λ b h e. ground (arith, e);
}

abbrev expecting : StashNode peered
expecting =
    (receive peered home arriving peer 1000 (spawned peered tt [] passthrough (from_hours 48))).0

expecting-IsValid : IsValid peered expecting
expecting-IsValid =
    reachable-IsValid peered tt [] passthrough (from_hours 48) expecting
      (Reach.next Reach.here (Step.received home arriving peer 1000))

abbrev expected : TrackedEntry
expected = new_entry peered home arriving peer 1000 false

referenced_at_home : is_tracked_for home photo expecting.content ≡ true
unfolding is_tracked_for HashMap.get receive want HashMap.insert bytes_discrete ℕ_discrete
    HashSet.contains HashSet.insert
referenced_at_home = refl

tracked_expected : HashMap.get bytes_discrete photo expecting.tracked ≡ some expected
unfolding HashMap.get receive or_insert HashMap.insert bytes_discrete ℕ_discrete
tracked_expected = refl

settle_once_serves_example :
    is_stored (content_bytes peered home photo (settle_once peered 2000 expecting).0) ≡ true
unfolding new_entry
settle_once_serves_example =
    settle_once_serves peered peered-IsDownloader home photo 2000 expected expecting
      expecting-IsValid referenced_at_home tracked_expected refl refl (λ b. refl)
