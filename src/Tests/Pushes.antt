-- ===== src/Tests/Pushes.antt =====
-- The requests for released entries (`rust/src/node.rs`, `rust/src/waker.rs`) at concrete inputs.
use trail_stash.Base.{ℕ, Option, ◌==◌, if◌then◌else◌, some, none, true, false}
use trail_stash.Node.{StashNode}
use trail_stash.Node.Settle.{Settled}
use trail_stash.Subscriptions
use trail_stash.Subscriptions.{PushSubscription}
use trail_stash.Text.{Text, text}
use trail_stash.Tests.Node.{store, home, photo, chased, waiting, stocked}
use trail_stash.Tests.Waker.{iphone}

-- Two nodes with one subscriber, of which one holds the photo.
abbrev empty_handed : StashNode store
empty_handed = record waiting {
  registry = (Subscriptions.register home (some iphone) Subscriptions.new).0;
}

abbrev supplied : StashNode store
supplied = record stocked {
  registry = (Subscriptions.register home (some iphone) Subscriptions.new).0;
}

abbrev without_content : Settled
without_content = record { hash = photo; entry = chased; degraded = true }

abbrev with_content : Settled
with_content = record {
  hash = home;
  entry = record chased { author = photo; seq = 9 };
  degraded = false;
}

abbrev span_of : ℕ → PushSubscription → Option Text
span_of n sub = if n == 0 then some (text "00-trace-01") else none

abbrev dormant : ℕ → PushSubscription → Option Text
dormant n sub = none
