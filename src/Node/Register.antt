-- ===== src/Node/Register.antt =====
-- `register`, `unsubscribe` and `sync_now` of `rust/src/node.rs`. The map of the handles is held through the first
-- import, so a registration is one step.
use trail_stash.Base.{Bool, List, Option, [], ◌∷◌, ◌++◌, bytes_discrete, if◌then◌else◌}
use trail_stash.Content.{NamespaceId}
use trail_stash.HashSet
use trail_stash.Iroh.{Iroh, EndpointId}
use trail_stash.Result.{Result, ok, err}
use trail_stash.Subscriptions.{PushSubscription}
use trail_stash.Subscriptions as Subscriptions
use trail_stash.Text.{Text, text}
use trail_stash.Node.{StashNode}

module _ (w : Iroh) where
  -- The block that holds the lock: the handle of the namespace, imported and joined if it is new.
  unfoldable pub open_doc : NamespaceId → StashNode w → StashNode w × Result Text (Unit {0})
  open_doc ns node =
      if HashSet.contains bytes_discrete ns node.handles
      then (node, ok tt)
      else elim (w.import_namespace node.docs ns) [
        | err e ↦ (node, err (text "import namespace capability: " ++ e))
        | ok docs ↦ elim (w.start_sync docs ns []) [
          | err e ↦ (
            record node { docs = docs },
            err (text "join namespace without bootstrap peers: " ++ e),
          )
          | ok docs' ↦ (
            record node {
              docs = docs';
              handles = (HashSet.insert bytes_discrete ns node.handles).0;
            },
            ok tt,
          )
        ]
      ]

  -- The rest: the registry, and a watcher for a namespace that is new to it.
  unfoldable pub enroll : NamespaceId → Option PushSubscription → StashNode w → StashNode w
  enroll ns subscription node =
      let (registry, first) = Subscriptions.register ns subscription node.registry in
      record node {
        registry = registry;
        spawned_watchers = if first then ns ∷ node.spawned_watchers else node.spawned_watchers;
      }

  unfoldable pub register :
      Text → Option PushSubscription → StashNode w → StashNode w × Result Text NamespaceId
  register read_ticket subscription node = elim (w.parse_ticket read_ticket) [
    | err e ↦ (node, err (text "parse doc ticket: " ++ e))
    | ok ticket ↦
        let ns = w.ticket_namespace ticket in
        let (node', opened) = open_doc ns node in
        elim opened [ err e ↦ (node', err e) | ok _ ↦ (enroll ns subscription node', ok ns) ]
  ]

  unfoldable pub unsubscribe : NamespaceId → PushSubscription → StashNode w → StashNode w × Bool
  unsubscribe ns sub node =
      let (registry, removed) = Subscriptions.unsubscribe ns sub node.registry in
      (record node { registry = registry }, removed)

  unfoldable pub sync_now :
      NamespaceId → List EndpointId → StashNode w → StashNode w × Result Text (Unit {0})
  sync_now ns peers node =
      if HashSet.contains bytes_discrete ns node.handles
      then elim (w.start_sync node.docs ns peers) [
        | err e ↦ (node, err e)
        | ok docs ↦ (record node { docs = docs }, ok tt)
      ]
      else (node, ok tt)
