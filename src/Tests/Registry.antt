-- ===== src/Tests/Registry.antt =====
-- The registry of `rust/src/subscriptions.rs` at a concrete input.
use trail_stash.Base.{◌≡◌, some, [], ◌∷◌, List}
use trail_stash.Subscriptions
use trail_stash.Subscriptions.{NamespaceId, PushSubscription, Platform}
use trail_stash.Subscriptions.History.{
  Op, register, unsubscribe, run, replay, nobody, Shows, registrations_refine,
}
use trail_stash.Text.{text}

abbrev home : NamespaceId
home = 1 ∷ []

abbrev phone : PushSubscription
phone = record { platform = Platform.apns; token = text "token" }

-- A registration, a second one of the same device, and the end of it.
abbrev calls : List Op
calls = register home (some phone) ∷ register home (some phone) ∷ unsubscribe home phone ∷ []

registrations_refine_example :
    Shows (run calls Subscriptions.new).0 (replay calls nobody).0
    × ((run calls Subscriptions.new).1 ≡ (replay calls nobody).1)
registrations_refine_example = registrations_refine calls
