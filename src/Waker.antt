-- ===== src/Waker.antt =====
-- `rust/src/waker.rs`: from the targets of a wake-up to the requests that are sent. The HTTP client and
-- what is logged of its replies are outside; assignment into a JSON value is a parameter.
pub mod Sends
pub mod Built
use trail_stash.Base.{
  Bool, ◌&&◌, is_none, unwrap_or, Option, none, some, List, [], ◌∷◌, is_empty, if◌then◌else◌, ◌>>=◌,
}
use trail_stash.Push.Hint.{JsonIndex}
use trail_stash.Push.{PushRequest, Json, string, apns_request, fcm_request}
use trail_stash.Subscriptions.{NamespaceId, Platform, apns, fcm, PushSubscription}
use trail_stash.Text.{Text, text}

pub record PushConfig : Type 0 where
  pub apns_host : Text
  pub bundle_id : Text
  pub fcm_project_id : Text

-- The trait.
pub record PushCredentials : Type 0 where
  pub apns_bearer : Option Text
  pub fcm_bearer : Option Text

-- `std::env::var(name).ok().filter(|s| !s.is_empty())`
unfoldable pub set_value : Option Text → Option Text
set_value value = do v ← value; if is_empty v then none else some v

-- `EnvCredentials`, in an environment that is a function from names to values.
unfoldable pub env_credentials : (Text → Option Text) → PushCredentials
env_credentials get = record {
  apns_bearer = set_value (get (text "APNS_BEARER"));
  fcm_bearer = set_value (get (text "FCM_BEARER"));
}

-- `HttpPushWaker::build`
unfoldable pub build :
    PushConfig → PushCredentials → NamespaceId → PushSubscription → Option (PushRequest × Text)
build config creds ns sub = elim sub.platform [
  | apns ↦ do
    bearer ← creds.apns_bearer
    some (apns_request config.apns_host config.bundle_id sub.token ns, bearer)
  | fcm ↦ do
    bearer ← creds.fcm_bearer
    some (fcm_request config.fcm_project_id sub.token ns, bearer)
]

-- What is posted: the request with its bearer.
pub record Outgoing : Type 0 where
  pub url : Text
  pub bearer : Text
  pub body : Json
  pub headers : List (Text × Text)

module _ (json : JsonIndex) where
  -- The assignment of the trace parent into the body.
  unfoldable pub embed_traceparent : Platform → Text → Json → Json
  embed_traceparent apns tp body = json.index_mut (text "traceparent") (λ _. string tp) body
  embed_traceparent fcm tp body =
      json.index_mut (text "message")
        (json.index_mut (text "data") (json.index_mut (text "traceparent") (λ _. string tp))) body

  -- The request with the trace parent of its span, if it has one.
  unfoldable pub post : Platform → Option Text → PushRequest × Text → Outgoing
  post platform traceparent (req, bearer) = record {
    url = req.url;
    bearer = bearer;
    body = elim traceparent [ none ↦ req.body | some tp ↦ embed_traceparent platform tp req.body ];
    headers = req.headers;
  }

  -- The requests that `HttpPushWaker::wake` sends. The trace parent of a target's span is what
  -- `traceparent_of` gives, and none in a build without telemetry.
  unfoldable pub wake :
      (PushSubscription → Option Text)
      → PushConfig
      → PushCredentials
      → NamespaceId
      → List PushSubscription
      → List Outgoing
  wake traceparent config creds ns [] = []
  wake traceparent config creds ns (sub ∷ targets) =
      let rest = wake traceparent config creds ns targets in
      elim (build config creds ns sub) [
        | none ↦ rest
        | some push ↦ post sub.platform (traceparent sub) push ∷ rest
      ]

-- `NoopWaker::wake`
unfoldable pub noop_wake : NamespaceId → List PushSubscription → List Outgoing
noop_wake ns targets = []

-- The waker that `build_waker` chooses from the environment: without routing, the one that does nothing.
unfoldable pub build_waker : (Text → Option Text) → Option PushConfig
build_waker get =
    let bundle_id = set_value (get (text "APNS_BUNDLE_ID")) in
    let fcm_project_id = set_value (get (text "FCM_PROJECT_ID")) in
    if is_none bundle_id && is_none fcm_project_id
    then none
    else some (record {
      apns_host = unwrap_or (text "api.push.apple.com") (get (text "APNS_HOST"));
      bundle_id = unwrap_or [] bundle_id;
      fcm_project_id = unwrap_or [] fcm_project_id;
    })
