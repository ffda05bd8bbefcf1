-- ===== src/Node/Watchers.antt =====
-- The watchers that `spawn_watch` of `rust/src/node.rs` starts, and their ends: a watcher ends when it cannot
-- subscribe, and at the first error or the end of its stream of events.
pub mod Adds
pub mod Deaf
use trail_stash.Base.{
  ℕ, Bool, true, false, ◌≡◌, Option, List, ◌∷◌, any, is_none, ltb, if◌then◌else◌,
}
use trail_stash.Content.{NamespaceId}
use trail_stash.Iroh.{Iroh}
use trail_stash.Node.{StashNode}
use trail_stash.Node.Receive.{LiveEvent, watch}
use trail_stash.Node.Run.{Step}
use trail_stash.Node.Watched.{count_watchers}

module _ (w : Iroh) where
  -- The node, and the namespaces of the watchers that have ended.
  pub record Process : Type 0 where
    pub node : StashNode w
    pub ended : List NamespaceId

  -- Whether a watcher of the namespace runs.
  abbrev pub listens : NamespaceId → Process → Bool
  listens ns p = ltb (count_watchers ns p.ended) (count_watchers ns p.node.spawned_watchers)

  -- A run of events of a stream, and whether the watcher goes on after it.
  unfoldable pub hear : NamespaceId → List (Option LiveEvent) → Process → Process
  hear ns events p = record {
    node = (watch w ns events p.node).0;
    ended = if any is_none events then ns ∷ p.ended else p.ended;
  }

  -- The steps of the node that a watcher takes.
  abbrev pub is_heard : {s t : StashNode w} → Step w s t → Bool
  is_heard (Step.received ns entry from now) = true
  is_heard (Step.watched ns events) = true
  is_heard (Step.settled now) = false
  is_heard (Step.pruned now) = false
  is_heard (Step.put ns hash bytes) = false
  is_heard (Step.registered ticket sub) = false
  is_heard (Step.unsubscribed ns sub) = false
  is_heard (Step.synced ns peers) = false
  is_heard (Step.outside docs blobs) = false

  -- One thing that happens: a run of events of a watcher that runs, its end, or another step of the node.
  pub data Turn (p : Process) : Process → Type 0 where
    hears :
        (ns : NamespaceId) (events : List (Option LiveEvent))
        → listens ns p ≡ true
        → Turn p (hear ns events p)
    ends : (ns : NamespaceId) → listens ns p ≡ true → Turn p (record p { ended = ns ∷ p.ended })
    acts :
        {t : StashNode w} (st : Step w p.node t)
        → is_heard st ≡ false
        → Turn p (record p { node = t })

  pub data Course (start : Process) : Process → Type 0 where
    here : Course start start
    next : {p q : Process} → Course start p → Turn p q → Course start q
