-- ===== src/Push.antt =====
-- `rust/src/push.rs`: the requests that wake a device.
pub mod Hint
use trail_stash.Base.{ℕ, List, [], ◌∷◌, ◌++◌}
use trail_stash.Subscriptions.{NamespaceId}
use trail_stash.Text.{Text, text}
use trail_stash.Text.Hex.{hex_encode}

-- The JSON values that `json!` builds here, and `null`; an object is the list of its fields.
mutual
  pub data Json : Type 0 where
    null : Json
    string : Text → Json
    number : ℕ → Json
    object : Fields → Json

  pub data Fields : Type 0 where
    none_left : Fields
    field : Text → Json → Fields → Fields

abbrev pub push_type : Text
push_type = text "trail-sync"

pub record PushRequest : Type 0 where
  pub url : Text
  pub headers : List (Text × Text)
  pub body : Json

unfoldable pub namespace_hex : NamespaceId → Text
namespace_hex ns = hex_encode ns

-- `{ "content-available": 1 }`
abbrev pub silent : Json
silent = object (field (text "content-available") (number 1) none_left)

unfoldable pub apns_request : Text → Text → Text → NamespaceId → PushRequest
apns_request host bundle_id device_token ns = record {
  url = text "https://" ++ host ++ text "/3/device/" ++ device_token;
  headers =
      (text "apns-push-type", text "background")
      ∷ (text "apns-priority", text "5")
      ∷ (text "apns-topic", bundle_id)
      ∷ (text "apns-expiration", text "0")
      ∷ [];
  body = object (
      field (text "aps") silent (
        field (text "type") (string push_type)
          (field (text "ns") (string (namespace_hex ns)) none_left)));
}

-- The part of the FCM message that mirrors the silent push for an iOS device.
abbrev pub fcm_apns : Json
fcm_apns = object (
    field (text "headers")
      (object (
        field (text "apns-push-type") (string (text "background"))
          (field (text "apns-priority") (string (text "5")) none_left)))
      (field (text "payload") (object (field (text "aps") silent none_left)) none_left))

abbrev pub fcm_data : NamespaceId → Json
fcm_data ns = object (
    field (text "type") (string push_type)
      (field (text "ns") (string (namespace_hex ns)) none_left))

unfoldable pub fcm_request : Text → Text → NamespaceId → PushRequest
fcm_request project_id device_token ns = record {
  url = text "https://fcm.googleapis.com/v1/projects/" ++ project_id ++ text "/messages:send";
  headers = [];
  body = object (
      field (text "message")
        (object (
          field (text "token") (string device_token) (
            field (text "data") (fcm_data ns) (
              field (text "android")
                (object (field (text "priority") (string (text "high")) none_left))
                (field (text "apns") fcm_apns none_left)))))
        none_left);
}
