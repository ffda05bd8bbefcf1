-- ===== src/Http/Guard.antt =====
-- The guard of the control API of `rust/src/node.rs`.
use trail_stash.Base.{◌≡◌, ◌≢◌, refl, inl, inr, false, Option, some, Bool-cases}
use trail_stash.Auth.{authorize, bearer_token, is_allowed}
use trail_stash.Auth.Compare.{authorize_iff, IsOptionText}
use trail_stash.Http.{Request, healthz, Reply, response, with_message, psk_guard, serve}
use trail_stash.Iroh.{Iroh}
use trail_stash.Node.{StashNode}
use trail_stash.Text.{Text, text, IsText}

module _ (w : Iroh) where
  psk_guard_denied :
      (psk header : Option Text) (next : StashNode w → StashNode w × Reply) (node : StashNode w)
      → is_allowed (authorize psk (bearer_token header)) ≡ false
      → psk_guard w psk header next node
        ≡ (node, response (with_message 401 (text "missing or invalid pre-shared key")))
  unfolding psk_guard
  psk_guard_denied psk header next node e = rw e

  -- Where a key is configured, every request but `/healthz` whose header does not carry exactly that key
  -- as its bearer token gets 401, and changes nothing, for keys and tokens of code points.
  pub serve_denied :
      (psk : Text) (header : Option Text) (req : Request) (node : StashNode w)
      → IsText psk
      → IsOptionText (bearer_token header)
      → bearer_token header ≢ some psk
      → req ≢ healthz
      → serve w (some psk) header req node
        ≡ (node, response (with_message 401 (text "missing or invalid pre-shared key")))
  unfolding serve
  serve_denied psk header req node p q wrong open_route =
      elim (Bool-cases (is_allowed (authorize (some psk) (bearer_token header)))) [
        | inl e ↦ absurd (wrong ((authorize_iff (some psk) (bearer_token header) p q).0 e))
        | inr e ↦ denied req open_route e
      ]
    where
      denied :
          (r : Request)
          → r ≢ healthz
          → is_allowed (authorize (some psk) (bearer_token header)) ≡ false
          → serve w (some psk) header r node
            ≡ (node, response (with_message 401 (text "missing or invalid pre-shared key")))
      denied healthz n e = absurd (n refl)
      denied (Request.post_namespace r) n e = psk_guard_denied (some psk) header _ node e
      denied _ n e = psk_guard_denied (some psk) header _ node e
