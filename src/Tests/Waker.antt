-- ===== src/Tests/Waker.antt =====
-- The theorems on `rust/src/waker.rs` and `rust/src/push.rs` at concrete inputs.
use trail_stash.Base.{
  Paired, Option, ite, bytes_discrete, unwrap_or, ◌≡◌, refl, some, none, [], ◌∷◌, arith,
}
use trail_stash.Push.Hint.{JsonIndex, IsJsonIndex, lookup_field, member}
use trail_stash.Push.{
  Json, Fields, null, string, number, object, none_left, field, PushRequest, apns_request,
}
use trail_stash.Subscriptions.{NamespaceId, Platform, PushSubscription}
use trail_stash.Text.{Text, text}
use trail_stash.Waker.{PushConfig, PushCredentials, build, wake}
use trail_stash.Waker.Sends.{wake_sends, IsSentTo, reachable}

abbrev pub config : PushConfig
config = record { apns_host = text "host"; bundle_id = text "app"; fcm_project_id = [] }

-- A deployment that reaches Apple devices alone.
abbrev pub creds : PushCredentials
creds = record { apns_bearer = some (text "jwt"); fcm_bearer = none }

abbrev home : NamespaceId
home =
    19 ∷ 19 ∷ 19 ∷ 19 ∷ 19 ∷ 19 ∷ 19 ∷ 19 ∷ 19 ∷ 19 ∷ 19 ∷ 19 ∷ 19 ∷ 19 ∷ 19 ∷ 19 ∷ 19 ∷ 19 ∷ 19
    ∷ 19 ∷ 19 ∷ 19 ∷ 19 ∷ 19 ∷ 19 ∷ 19 ∷ 19 ∷ 19 ∷ 19 ∷ 19 ∷ 19 ∷ 19 ∷ []

abbrev pub iphone : PushSubscription
iphone = record { platform = Platform.apns; token = text "a" }

abbrev android : PushSubscription
android = record { platform = Platform.fcm; token = text "b" }

pub change_field : Text → (Json → Json) → Fields → Fields
change_field k f none_left = field k (f null) none_left
change_field k f (field j v rest) =
    let rest' = change_field k f rest in
    ite (bytes_discrete k j) (field j (f v) rest) (field j v rest')

pub change_member : Text → (Json → Json) → Json → Json
change_member k f null = object (field k (f null) none_left)
change_member k f (string s) = string s
change_member k f (number n) = number n
change_member k f (object fields) = object (change_field k f fields)

abbrev pub json : JsonIndex
json = record { index_mut = change_member }

lookup_field-change_field :
    (k j : Text) (f : Json → Json) (fields : Fields)
    → lookup_field j (change_field k f fields)
      ≡ ite
          (bytes_discrete j k)
          (some (f (unwrap_or null (lookup_field k fields))))
          (lookup_field j fields)
unfolding lookup_field change_field
lookup_field-change_field k j f none_left = ground arith
lookup_field-change_field k j f (field i v rest) =
    ground (arith, lookup_field-change_field k j f rest)

json-IsJsonIndex : IsJsonIndex json
unfolding member change_member
json-IsJsonIndex = record {
  same = λ k f fields. ground (arith, lookup_field-change_field k k f fields);
  others = λ k j f fields ne. ground (arith, lookup_field-change_field k j f fields, ne);
}

abbrev spans : PushSubscription → Option Text
spans sub = some (text "00-trace-01")

wake_sends_example :
    Paired
      (λ sub sent.
        IsSentTo config creds home sub.platform sub.token (some (text "00-trace-01")) sent)
      (reachable creds (iphone ∷ android ∷ []))
      (wake json spans config creds home (iphone ∷ android ∷ []))
wake_sends_example =
    wake_sends json json-IsJsonIndex spans config creds home (iphone ∷ android ∷ [])

abbrev sent : PushRequest × Text
sent = (apns_request (text "host") (text "app") (text "a") home, text "jwt")

built : build config creds home iphone ≡ some sent
unfolding build
built = refl
