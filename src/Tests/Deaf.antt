-- ===== src/Tests/Deaf.antt =====
-- A watcher of `rust/src/node.rs` that has ended, at a concrete input.
use trail_stash.Base.{◌≡◌, refl, true, false, none, [], ◌∷◌, bytes_discrete, ℕ_discrete, arith}
use trail_stash.HashSet
use trail_stash.Mls.{passthrough}
use trail_stash.Node.{StashNode}
use trail_stash.Node.Register.{register, open_doc, enroll}
use trail_stash.Node.Run.{Step, Reach, reachable-IsValid}
use trail_stash.Node.Watched.{reachable-IsWatched}
use trail_stash.Node.Watchers.{Process, listens, acts, here, next}
use trail_stash.Node.Watchers.Deaf.{IsDeaf, NoneNew, deaf_for_good}
use trail_stash.Retention.{from_hours}
use trail_stash.Subscriptions
use trail_stash.Subscriptions.{is_known}
use trail_stash.Tests.Node.{store, home, fresh_node}

abbrev registered : StashNode store
registered = (register store home none fresh_node).0

registered-Reach : Reach store fresh_node registered
registered-Reach = Reach.next Reach.here (Step.registered home none)

-- The stream of the one namespace has ended.
abbrev silent : Process store
silent = record { node = registered; ended = home ∷ [] }

silent_known : is_known home registered.registry ≡ true
unfolding register is_known HashSet.contains open_doc enroll Subscriptions.register HashSet.insert
    bytes_discrete ℕ_discrete
silent_known = refl

silent-IsDeaf : IsDeaf store home silent
unfolding bytes_discrete ℕ_discrete
silent-IsDeaf = record {
  valid = reachable-IsValid store tt [] passthrough (from_hours 48) registered registered-Reach;
  watched = reachable-IsWatched store tt [] passthrough (from_hours 48) registered registered-Reach;
  known = silent_known;
  over = omega arith;
}

-- The namespace is registered again.
abbrev again : Process store
again = record silent { node = (register store home none registered).0 }

deaf_for_good_example : (listens store home again ≡ false) × NoneNew store home again silent
deaf_for_good_example =
    deaf_for_good store home silent again silent-IsDeaf
      (next here (acts (Step.registered home none) refl))
