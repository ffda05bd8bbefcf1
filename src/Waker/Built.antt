-- ===== src/Waker/Built.antt =====
-- Which targets of the waker of `rust/src/waker.rs` get a request, and that a device can read the namespace in it.
use trail_stash.Base.{
  ℕ, ◌≡◌, refl, sym, Option, some, List, [], ◌∷◌, All, IsByte, length, arith, inl, inr,
  Option-cases, ap, ◌∙◌, is_some_and, true, if◌then◌else◌, suc,
}
use trail_stash.Api.{parse_namespace_hex}
use trail_stash.Api.NamespaceHex.{parse_namespace_hex_iff}
use trail_stash.Push.{PushRequest, apns_request, fcm_request, namespace_hex}
use trail_stash.Push.Hint.{JsonIndex, apns_hint, fcm_hint}
use trail_stash.Result.{ok}
use trail_stash.Subscriptions.{NamespaceId, Platform, apns, fcm, PushSubscription}
use trail_stash.Text.{Text}
use trail_stash.Waker.{PushConfig, PushCredentials, build, wake}
use trail_stash.Waker.Sends.{hint_of, bearer_of, apns_hint-apns_request, fcm_hint-fcm_request}

abbrev pub count_reachable : PushCredentials → List PushSubscription → ℕ
count_reachable creds [] = 0
count_reachable creds (sub ∷ targets) =
    let rest = count_reachable creds targets in
    if is_some_and (λ _. true) (bearer_of creds sub.platform) then suc rest else rest

-- Of the targets of a wake-up exactly those get a request for whose platform there is a credential, one each.
pub length-wake :
    (json : JsonIndex) (traceparent : PushSubscription → Option Text) (config : PushConfig)
    (creds : PushCredentials) (ns : NamespaceId) (targets : List PushSubscription)
    → length (wake json traceparent config creds ns targets) ≡ count_reachable creds targets
unfolding wake build
length-wake json traceparent config creds ns [] = refl
length-wake json traceparent config creds ns (sub ∷ targets) =
    ground (arith, length-wake json traceparent config creds ns targets)

hint-parses :
    (ns : NamespaceId)
    → All IsByte ns
    → length ns ≡ 32
    → parse_namespace_hex (namespace_hex ns) ≡ ok ns
hint-parses ns bytes size = (parse_namespace_hex_iff (namespace_hex ns) ns).1 (bytes, size, refl)

build_hint_at :
    (config : PushConfig) (creds : PushCredentials) (ns : NamespaceId) (p : Platform) (t : Text)
    (push : PushRequest × Text)
    → All IsByte ns
    → length ns ≡ 32
    → build config creds ns (record { platform = p; token = t }) ≡ some push
    → (hint : Text) × (hint_of p push.0.body ≡ some hint)
      × (parse_namespace_hex hint ≡ ok ns)
      × (bearer_of creds p ≡ some push.1)
unfolding build
build_hint_at config creds ns apns t push bytes size e = elim (Option-cases creds.apns_bearer) [
  | inl f ↦ absurd (ground (arith, e, f))
  | inr (b, f) ↦
      let same : (apns_request config.apns_host config.bundle_id t ns, b) ≡ push =
        ground (arith, e, f) in
      (
        namespace_hex ns,
        ap (λ p. apns_hint p.0.body) (sym same)
            ∙ apns_hint-apns_request config.apns_host config.bundle_id t ns,
        hint-parses ns bytes size,
        f ∙ ap (λ p. some p.1) same,
      )
]
build_hint_at config creds ns fcm t push bytes size e = elim (Option-cases creds.fcm_bearer) [
  | inl f ↦ absurd (ground (arith, e, f))
  | inr (b, f) ↦
      let same : (fcm_request config.fcm_project_id t ns, b) ≡ push = ground (arith, e, f) in
      (
        namespace_hex ns,
        ap (λ p. fcm_hint p.0.body) (sym same) ∙ fcm_hint-fcm_request config.fcm_project_id t ns,
        hint-parses ns bytes size,
        f ∙ ap (λ p. some p.1) same,
      )
]

-- The request built for a target carries, where the target's platform delivers it, a text that the control API
-- parses to the namespace that changed, if that is an id of 32 bytes; its bearer is the credential of that platform.
pub build_hint :
    (config : PushConfig) (creds : PushCredentials) (ns : NamespaceId) (sub : PushSubscription)
    (push : PushRequest × Text)
    → All IsByte ns
    → length ns ≡ 32
    → build config creds ns sub ≡ some push
    → (hint : Text) × (hint_of sub.platform push.0.body ≡ some hint)
      × (parse_namespace_hex hint ≡ ok ns)
      × (bearer_of creds sub.platform ≡ some push.1)
build_hint config creds ns sub push bytes size e =
    build_hint_at config creds ns sub.platform sub.token push bytes size e
