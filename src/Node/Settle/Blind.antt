-- ===== src/Node/Settle/Blind.antt =====
-- From the entries that the settle loop of `rust/src/node.rs` releases to the requests that the waker of
-- `rust/src/waker.rs` sends for them.
use trail_stash.Base.{
  ◌≡◌, Option, none, some, List, [], ◌∷◌, ◌++◌, map, is_empty, if◌then◌else◌, ℕ, ◌+◌,
}
use trail_stash.Content.{NamespaceId}
use trail_stash.Iroh.{Iroh}
use trail_stash.Mls.{EnvelopeRef, accept}
use trail_stash.Node.{StashNode, Wake}
use trail_stash.Node.Settle.{Settled}
use trail_stash.Push.Hint.{JsonIndex}
use trail_stash.Subscriptions.{Platform, NamespaceRegistry, PushSubscription, wake_targets}
use trail_stash.Text.{Text}
use trail_stash.Waker.{PushConfig, PushCredentials, Outgoing, wake, post}
use trail_stash.Push.{PushRequest}

-- The requests of the calls of the waker, one call after the other from a first number on. Every push has a span of
-- its own, so the trace parents depend on the number of the call and on the target.
unfoldable pub pushes :
    JsonIndex
    → (ℕ → PushSubscription → Option Text)
    → PushConfig
    → PushCredentials
    → ℕ
    → List Wake
    → List Outgoing
pushes json traceparent config creds n [] = []
pushes json traceparent config creds n (call ∷ calls) =
    wake json (traceparent n) config creds call.namespace call.targets
    ++ pushes json traceparent config creds (n + 1) calls

-- The call for a namespace, from the registry alone.
abbrev call_for : NamespaceId → NamespaceRegistry → Option Wake
call_for ns registry =
    let targets = wake_targets ns registry in
    if is_empty targets then none else some (record { namespace = ns; targets = targets })

abbrev pub namespaces : List Settled → List NamespaceId
namespaces = map (λ s. s.entry.namespace)

abbrev pub AdmitsAll : (w : Iroh) → StashNode w → Type 0
AdmitsAll w node = (envelope : EnvelopeRef) → node.delivery envelope ≡ accept

abbrev add_call : Option Wake → List Wake → List Wake
add_call none calls = calls
add_call (some call) calls = call ∷ calls

calls_for : List NamespaceId → NamespaceRegistry → List Wake
calls_for [] registry = []
calls_for (ns ∷ rest) registry = add_call (call_for ns registry) (calls_for rest registry)

-- Whether two requests are the same push, each with a trace parent of its own or none.
abbrev pub SamePush : JsonIndex → Outgoing → Outgoing → Type 0
SamePush json sent sent' =
    (platform : Platform) × (push : PushRequest × Text) × (tp : Option Text) × (tp' : Option Text)
    × (sent ≡ post json platform tp push)
    × (sent' ≡ post json platform tp' push)
