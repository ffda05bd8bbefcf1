-- ===== src/Http/Untrimmed.antt =====
-- `unsubscribe_handler` of `rust/src/node.rs` reads the token as it stands; `register_handler` trims it.
use trail_stash.Base.{◌∙◌, ◌≡◌, ◌≢◌, refl, ap, some, arith, bytes_discrete, false, ite}
use trail_stash.Api.{parse_platform, parse_namespace_hex}
use trail_stash.Content.{NamespaceId}
use trail_stash.Http.{UnsubscribeRequest, response, status_only, unsubscribe_handler}
use trail_stash.Iroh.{Iroh}
use trail_stash.Node.{StashNode}
use trail_stash.Node.Register.{unsubscribe}
use trail_stash.Result.{ok}
use trail_stash.Subscriptions.{Platform, PushSubscription, subscription_discrete}
use trail_stash.Subscriptions.Laws.{wakes, unsubscribe_effect}
use trail_stash.Text.{Text, trim}

module _ (w : Iroh) (id : Text) (ns : NamespaceId) (req : UnsubscribeRequest) (p : Platform)
    (node : StashNode w) where
  abbrev raw : PushSubscription
  raw = record { platform = p; token = req.push_token }

  -- A well-formed request to unsubscribe is answered by 204 whether or not the device was subscribed; it
  -- stops the wake-ups of exactly the device with the token as the request spells it, for exactly that
  -- namespace, and the namespace stays known.
  pub unsubscribe_handler_effect :
      parse_namespace_hex id ≡ ok ns
      → parse_platform req.platform ≡ some p
      → let (after, reply) = unsubscribe_handler w id req node in
        (reply ≡ response (status_only 204))
        × (after.registry.known ≡ node.registry.known)
        × ((ns' : NamespaceId) (t : PushSubscription)
            → wakes ns' t after.registry
              ≡ ite
                  (bytes_discrete ns' ns)
                  (ite (subscription_discrete t raw) false (wakes ns' t node.registry))
                  (wakes ns' t node.registry))
  unfolding unsubscribe_handler unsubscribe
  unsubscribe_handler_effect e f =
      rw (e, f, unsubscribe_handler)
        (
          refl,
          (unsubscribe_effect ns raw node.registry ns raw).1,
          λ ns' t. (unsubscribe_effect ns raw node.registry ns' t).2,
        )

  -- A well-formed request to unsubscribe whose token is not trimmed changes nothing for the device with
  -- the trimmed token, which is the one that a registration with that token enrols: it is woken
  -- afterwards exactly if it was before.
  pub unsubscribe_handler_padded :
      parse_namespace_hex id ≡ ok ns
      → parse_platform req.platform ≡ some p
      → trim req.push_token ≢ req.push_token
      → wakes ns
          (record { platform = p; token = trim req.push_token })
          (unsubscribe_handler w id req node).0.registry
        ≡ wakes ns (record { platform = p; token = trim req.push_token }) node.registry
  unsubscribe_handler_padded e f padded =
      let after = unsubscribe_handler_effect e f in
      let differs : record { platform = p; token = trim req.push_token } ≢ raw =
        λ same. padded (ap (λ s. s.token) same) in
      after.2 ns (record { platform = p; token = trim req.push_token }) ∙ ground arith
