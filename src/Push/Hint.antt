-- ===== src/Push/Hint.antt =====
-- What a woken device reads from the body of a request of `rust/src/push.rs`.
use trail_stash.Base.{Option, none, some, ite, bytes_discrete, ◌>>=◌, unwrap_or, ◌≡◌, ◌≢◌}
use trail_stash.Text.{Text, text}
use trail_stash.Push.{Json, Fields, null, string, number, object, none_left, field}

unfoldable pub lookup_field : Text → Fields → Option Json
lookup_field name none_left = none
lookup_field name (field k v rest) =
    let later = lookup_field name rest in ite (bytes_discrete name k) (some v) later

unfoldable pub member : Text → Json → Option Json
member name null = none
member name (string s) = none
member name (number n) = none
member name (object fields) = lookup_field name fields

abbrev pub text_of : Json → Option Text
text_of null = none
text_of (string s) = some s
text_of (number n) = none
text_of (object fields) = none

-- `IndexMut` of `serde_json::Value`: a change of the value under a key of an object.
pub record JsonIndex : Type 0 where
  pub index_mut : Text → (Json → Json) → Json → Json

-- Its documented behaviour: the value under the key changes, from `null` where there was none, and no other does.
pub record IsJsonIndex (json : JsonIndex) : Type 0 where
  pub same :
      (k : Text) (f : Json → Json) (fields : Fields)
      → member k (json.index_mut k f (object fields))
        ≡ some (f (unwrap_or null (lookup_field k fields)))
  pub others :
      (k j : Text) (f : Json → Json) (fields : Fields)
      → j ≢ k
      → member j (json.index_mut k f (object fields)) ≡ lookup_field j fields

-- The namespace of an APNs body, next to `aps`.
unfoldable pub apns_hint : Json → Option Text
apns_hint body = do ns ← member (text "ns") body; text_of ns

-- The namespace of an FCM body, in the data of its message.
unfoldable pub fcm_hint : Json → Option Text
fcm_hint body = do
  message ← member (text "message") body
  data_map ← member (text "data") message
  ns ← member (text "ns") data_map
  text_of ns

-- The trace parent of an APNs body, a custom key next to `type` and `ns`.
unfoldable pub apns_traceparent : Json → Option Text
apns_traceparent body = do tp ← member (text "traceparent") body; text_of tp

-- The trace parent of an FCM body, in the data of its message.
unfoldable pub fcm_traceparent : Json → Option Text
fcm_traceparent body = do
  message ← member (text "message") body
  data_map ← member (text "data") message
  tp ← member (text "traceparent") data_map
  text_of tp
