-- ===== src/Waker/Sends.antt =====
-- Which requests the waker of `rust/src/waker.rs` sends, and what they tell the device.
use mathlib.Core.List.{Memᴰ}
use mathlib.Core.Path.{subst}
use trail_stash.Base.{
  Paired, no_pairs, pair, ◌≢◌, none, ◌>>=◌, none, ◌≡◌, refl, Option, some, List, [], ◌∷◌, arith,
  bytes_discrete, ℕ_discrete, inl, inr, Option-cases, ap, ◌∙◌, ◌++◌, is_some_and, true, false,
  if◌then◌else◌,
}
use trail_stash.Push.{fcm_data, string, PushRequest, Json, apns_request, fcm_request, namespace_hex}
use trail_stash.Push.Hint.{
  text_of, JsonIndex, IsJsonIndex, apns_traceparent, fcm_traceparent, lookup_field, member,
  apns_hint, fcm_hint,
}
use trail_stash.Subscriptions.{NamespaceId, Platform, apns, fcm, PushSubscription}
use trail_stash.Text.{Text, text}
use trail_stash.Waker.{PushConfig, PushCredentials, build, wake, post, embed_traceparent, Outgoing}

abbrev pub hint_of : Platform → Json → Option Text
hint_of apns body = apns_hint body
hint_of fcm body = fcm_hint body

-- The credential of a platform.
abbrev pub bearer_of : PushCredentials → Platform → Option Text
bearer_of creds apns = creds.apns_bearer
bearer_of creds fcm = creds.fcm_bearer

pub apns_hint-apns_request :
    (host bundle_id token : Text) (ns : NamespaceId)
    → apns_hint (apns_request host bundle_id token ns).body ≡ some (namespace_hex ns)
unfolding apns_hint apns_request member lookup_field bytes_discrete ℕ_discrete
apns_hint-apns_request host bundle_id token ns = refl

pub fcm_hint-fcm_request :
    (project_id token : Text) (ns : NamespaceId)
    → fcm_hint (fcm_request project_id token ns).body ≡ some (namespace_hex ns)
unfolding fcm_hint fcm_request member lookup_field bytes_discrete ℕ_discrete
fcm_hint-fcm_request project_id token ns = refl

abbrev pub traceparent_at : Platform → Json → Option Text
traceparent_at apns body = apns_traceparent body
traceparent_at fcm body = fcm_traceparent body

-- The device of an FCM body, in its message.
abbrev pub fcm_token : Json → Option Text
fcm_token body = do
  message ← member (text "message") body
  token ← member (text "token") message
  text_of token

-- Whether a request goes to the device of the token: APNs takes the token from the path, and the app from the topic,
-- and FCM the token from the message, for the project in the path.
abbrev pub IsAddressed : PushConfig → Platform → Text → Outgoing → Type 0
IsAddressed config apns token sent =
    (sent.url ≡ text "https://" ++ config.apns_host ++ text "/3/device/" ++ token)
    × Memᴰ (text "apns-topic", config.bundle_id) sent.headers
IsAddressed config fcm token sent =
    (sent.url
      ≡ text "https://fcm.googleapis.com/v1/projects/"
        ++ config.fcm_project_id
        ++ text "/messages:send")
    × (fcm_token sent.body ≡ some token)

-- Whether a request that is sent goes to the device and tells it the namespace, with the credential of its platform
-- and the trace parent that it is to have.
abbrev pub IsSentTo :
    PushConfig → PushCredentials → NamespaceId → Platform → Text → Option Text → Outgoing → Type 0
IsSentTo config creds ns p token tp sent =
    IsAddressed config p token sent
    × (hint_of p sent.body ≡ some (namespace_hex ns))
    × (traceparent_at p sent.body ≡ tp)
    × (bearer_of creds p ≡ some sent.bearer)

-- The targets for whose platform there is a credential.
abbrev pub reachable : PushCredentials → List PushSubscription → List PushSubscription
reachable creds [] = []
reachable creds (sub ∷ targets) =
    let rest = reachable creds targets in
    if is_some_and (λ _. true) (bearer_of creds sub.platform) then sub ∷ rest else rest

ns_apart : text "ns" ≢ text "traceparent"
ns_apart p = ground (arith, p)

token_apart : text "token" ≢ text "data"
token_apart p = ground (arith, p)

module _ (json : JsonIndex) (law : IsJsonIndex json) where
  topic :
      (config : PushConfig) (ns : NamespaceId) (t : Text)
      → Memᴰ
          (text "apns-topic", config.bundle_id)
          (apns_request config.apns_host config.bundle_id t ns).headers
  unfolding apns_request
  topic config ns t = Memᴰ.tail (Memᴰ.tail (Memᴰ.head refl))

  apns_post :
      (config : PushConfig) (ns : NamespaceId) (t : Text) (bearer : Text) (tp : Option Text)
      (creds : PushCredentials)
      → creds.apns_bearer ≡ some bearer
      → IsSentTo config creds ns apns t tp
          (post json apns tp (apns_request config.apns_host config.bundle_id t ns, bearer))
  unfolding post embed_traceparent apns_hint apns_traceparent apns_request member lookup_field
      bytes_discrete ℕ_discrete
  apns_post config ns t bearer none creds e = ((refl, topic config ns t), refl, refl, e)
  apns_post config ns t bearer (some tp) creds e = (
    (refl, topic config ns t),
    ap (λ m. do v ← m; text_of v)
        (law.others (text "traceparent") (text "ns") (λ _. string tp) _ ns_apart),
    ap (λ m. do v ← m; text_of v) (law.same (text "traceparent") (λ _. string tp) _),
    e,
  )

  -- What the assignment does to the data of an FCM body.
  fcm_data_of :
      (k : Text) (project_id t : Text) (ns : NamespaceId) (tp : Text)
      → (do
        message ←
            member
              (text "message")
              (embed_traceparent json fcm tp (fcm_request project_id t ns).body)
        data_map ← member (text "data") message
        v ← member k data_map
        text_of v)
        ≡ (do
          v ← member k (json.index_mut (text "traceparent") (λ _. string tp) (fcm_data ns))
          text_of v)
  unfolding embed_traceparent fcm_request lookup_field bytes_discrete ℕ_discrete
  fcm_data_of k project_id t ns tp =
      ap
        (λ m. do
          message ← m
          data_map ← member (text "data") message
          v ← member k data_map
          text_of v)
        (law.same (text "message")
          (json.index_mut (text "data") (json.index_mut (text "traceparent") (λ _. string tp))) _)
      ∙ ap (λ m. do data_map ← m; v ← member k data_map; text_of v)
          (law.same (text "data") (json.index_mut (text "traceparent") (λ _. string tp)) _)

  -- Nor does the assignment touch the device.
  fcm_token_of :
      (project_id t : Text) (ns : NamespaceId) (tp : Text)
      → fcm_token (embed_traceparent json fcm tp (fcm_request project_id t ns).body) ≡ some t
  unfolding embed_traceparent fcm_request lookup_field bytes_discrete ℕ_discrete
  fcm_token_of project_id t ns tp =
      ap (λ m. do message ← m; token ← member (text "token") message; text_of token)
        (law.same (text "message")
          (json.index_mut (text "data") (json.index_mut (text "traceparent") (λ _. string tp))) _)
      ∙ ap (λ m. do token ← m; text_of token)
          (law.others (text "data") (text "token")
            (json.index_mut (text "traceparent") (λ _. string tp)) _ token_apart)

  fcm_post :
      (config : PushConfig) (ns : NamespaceId) (t : Text) (bearer : Text) (tp : Option Text)
      (creds : PushCredentials)
      → creds.fcm_bearer ≡ some bearer
      → IsSentTo config creds ns fcm t tp
          (post json fcm tp (fcm_request config.fcm_project_id t ns, bearer))
  unfolding post fcm_hint fcm_traceparent fcm_request member lookup_field bytes_discrete ℕ_discrete
  fcm_post config ns t bearer none creds e = ((refl, refl), refl, refl, e)
  fcm_post config ns t bearer (some tp) creds e = (
    (refl, fcm_token_of config.fcm_project_id t ns tp),
    fcm_data_of (text "ns") config.fcm_project_id t ns tp
        ∙ ap (λ m. do v ← m; text_of v)
            (law.others (text "traceparent") (text "ns") (λ _. string tp) _ ns_apart),
    fcm_data_of (text "traceparent") config.fcm_project_id t ns tp
        ∙ ap (λ m. do v ← m; text_of v) (law.same (text "traceparent") (λ _. string tp) _),
    e,
  )

  build_sent :
      (config : PushConfig) (creds : PushCredentials) (ns : NamespaceId) (p : Platform) (t : Text)
      (tp : Option Text) (push : PushRequest × Text)
      → build config creds ns (record { platform = p; token = t }) ≡ some push
      → IsSentTo config creds ns p t tp (post json p tp push)
  unfolding build
  build_sent config creds ns apns t tp push e = elim (Option-cases creds.apns_bearer) [
    | inl f ↦ absurd (ground (arith, e, f))
    | inr (b, f) ↦
        subst (λ q. IsSentTo config creds ns apns t tp (post json apns tp q)) (ground (arith, e, f))
          (apns_post config ns t b tp creds f)
  ]
  build_sent config creds ns fcm t tp push e = elim (Option-cases creds.fcm_bearer) [
    | inl f ↦ absurd (ground (arith, e, f))
    | inr (b, f) ↦
        subst (λ q. IsSentTo config creds ns fcm t tp (post json fcm tp q)) (ground (arith, e, f))
          (fcm_post config ns t b tp creds f)
  ]

  build_iff :
      (config : PushConfig) (creds : PushCredentials) (ns : NamespaceId) (sub : PushSubscription)
      → is_some_and (λ _. true) (build config creds ns sub)
        ≡ is_some_and (λ _. true) (bearer_of creds sub.platform)
  unfolding build
  build_iff config creds ns sub = ground arith

  -- A wake-up sends one request for each target for whose platform there is a credential, in the order of the
  -- targets, and no other: the request goes to the device of that target, by its token, it names the namespace that
  -- changed where the platform delivers it, it carries the trace parent of that target's span if there is one and none
  -- otherwise, and its bearer is the credential of the platform. So embedding the trace parent displaces
  -- neither the namespace nor the device, where an assignment into a JSON value changes the one key.
  pub wake_sends :
      (traceparent : PushSubscription → Option Text) (config : PushConfig) (creds : PushCredentials)
      (ns : NamespaceId) (targets : List PushSubscription)
      → Paired
          (λ sub sent. IsSentTo config creds ns sub.platform sub.token (traceparent sub) sent)
          (reachable creds targets)
          (wake json traceparent config creds ns targets)
  unfolding wake
  wake_sends traceparent config creds ns [] = no_pairs
  wake_sends traceparent config creds ns (sub ∷ targets) =
      let rest = wake_sends traceparent config creds ns targets in
      let same = build_iff config creds ns sub in
      elim (Option-cases (build config creds ns sub)) [
        | inl e ↦
            let out : is_some_and (λ _. true) (bearer_of creds sub.platform) ≡ false =
              ground (arith, same, e) in
            rw (wake, e, out) rest
        | inr (push, e) ↦
            let there : is_some_and (λ _. true) (bearer_of creds sub.platform) ≡ true =
              ground (arith, same, e) in
            rw (wake, e, there)
              (pair (build_sent config creds ns sub.platform sub.token (traceparent sub) push e)
                rest)
      ]
