-- ===== src/Http.antt =====
-- The control API of `rust/src/node.rs`: its routes, the guard and the handlers. Parsing the request
-- into a route and its JSON body is axum's part.
pub mod Guard
pub mod Upload
pub mod Untrimmed
use trail_stash.Base.{
  ℕ, Bool, true, false, ◌&&◌, ◌||◌, Option, none, some, [], ◌∷◌, Bytes, ◌==◌, if◌then◌else◌,
}
use trail_stash.Api.{
  RegisterRequest, ApiError, bad_ticket, bad_token, bad_platform, incomplete_push, bad_namespace,
  parse_platform, parse_namespace_hex, validate_register,
}
use trail_stash.Auth.{authorize, bearer_token, is_allowed}
use trail_stash.Iroh.{Iroh}
use trail_stash.Node.{StashNode}
use trail_stash.Node.Register.{register, unsubscribe}
use trail_stash.Node.Serve.{
  PutOutcome, stored, unknown_namespace, untracked_hash, hash_mismatch, content_stats,
  content_bytes, put_content,
}
use trail_stash.Result.{Result, ok, err}
use trail_stash.Subscriptions.{PushSubscription}
use trail_stash.Text.{Text, text, as_bytes}

pub record Response : Type 0 where
  pub status : ℕ
  pub body : Bytes

abbrev pub status_only : ℕ → Response
status_only status = record { status = status; body = [] }

abbrev pub with_message : ℕ → Text → Response
with_message status message = record { status = status; body = as_bytes message }

-- `ApiError::to_string`
abbrev pub message_of : ApiError → Text
message_of bad_ticket = text "read ticket missing or malformed"
message_of bad_token = text "push token missing or too long"
message_of bad_platform = text "platform must be 'apns' or 'fcm'"
message_of incomplete_push = text "push token and platform must be provided together"
message_of bad_namespace = text "namespace id must be 64 lowercase hex characters"

-- `str::contains`
unfoldable pub starts_with : Text → Text → Bool
starts_with [] s = true
starts_with (c ∷ needle) [] = false
starts_with (c ∷ needle) (d ∷ s) = (c == d) && starts_with needle s

unfoldable pub contains : Text → Text → Bool
contains needle [] = starts_with needle []
contains needle (c ∷ s) = starts_with needle (c ∷ s) || contains needle s

pub record UnsubscribeRequest : Type 0 where
  pub push_token : Text
  pub platform : Text

-- The routes of `serve_control_api`.
pub data Request : Type 0 where
  healthz : Request
  post_namespace : RegisterRequest → Request
  delete_subscription : Text → UnsubscribeRequest → Request
  get_content : Text → Text → Request
  put_content_at : Text → Text → Bytes → Request

-- A reply: an opaque response, or the two numbers of `/healthz`.
pub data Reply : Type 0 where
  response : Response → Reply
  health : ℕ → ℕ → Reply

module _ (w : Iroh) where
  abbrev pub Handler : Type 0
  Handler = StashNode w → StashNode w × Reply

  -- The response to a failed registration, by its message.
  unfoldable pub register_failed : Text → Response
  register_failed msg =
      if contains (text "parse doc ticket") msg then with_message 400 msg else with_message 502 msg

  unfoldable pub register_handler : RegisterRequest → Handler
  register_handler req node = elim (validate_register req) [
    | err e ↦ (node, response (with_message 400 (message_of e)))
    | ok valid ↦
        let (node', result) = register w valid.read_ticket valid.subscription node in
        (node', response (elim result [ ok _ ↦ status_only 201 | err msg ↦ register_failed msg ]))
  ]

  unfoldable pub content_handler : Text → Text → Handler
  content_handler id hash node = elim (parse_namespace_hex id) [
    | err e ↦ (node, response (with_message 400 (message_of e)))
    | ok ns ↦ elim (w.parse_hash hash) [
      | none ↦ (node, response (with_message 400 (text "content hash is malformed")))
      | some h ↦ elim (content_bytes w ns h node) [
        | none ↦ (node, response (status_only 404))
        | some bytes ↦ (node, response (record { status = 200; body = bytes }))
      ]
    ]
  ]

  abbrev pub put_reply : Result Text PutOutcome → Response
  put_reply (ok stored) = status_only 204
  put_reply (ok unknown_namespace) = status_only 404
  put_reply (ok untracked_hash) = status_only 409
  put_reply (ok hash_mismatch) = with_message 400 (text "content does not match its hash")
  put_reply (err error) = with_message 502 error

  unfoldable pub put_content_handler : Text → Text → Bytes → Handler
  put_content_handler id hash bytes node = elim (parse_namespace_hex id) [
    | err e ↦ (node, response (with_message 400 (message_of e)))
    | ok ns ↦ elim (w.parse_hash hash) [
      | none ↦ (node, response (with_message 400 (text "content hash is malformed")))
      | some h ↦
          let (node', result) = put_content w ns h bytes node in
          (node', response (put_reply result))
    ]
  ]

  unfoldable pub unsubscribe_handler : Text → UnsubscribeRequest → Handler
  unsubscribe_handler id req node = elim (parse_namespace_hex id) [
    | err e ↦ (node, response (with_message 400 (message_of e)))
    | ok ns ↦ elim (parse_platform req.platform) [
      | none ↦ (node, response (with_message 400 (text "platform must be 'apns' or 'fcm'")))
      | some platform ↦
          let sub : PushSubscription = record { platform = platform; token = req.push_token } in
          ((unsubscribe w ns sub node).0, response (status_only 204))
    ]
  ]

  unfoldable pub healthz_handler : Handler
  healthz_handler node =
      let (content_missing, content_tracked) = content_stats w node in
      (node, health content_missing content_tracked)

  unfoldable pub psk_guard : Option Text → Option Text → Handler → Handler
  psk_guard psk header next node =
      if is_allowed (authorize psk (bearer_token header))
      then next node
      else (node, response (with_message 401 (text "missing or invalid pre-shared key")))

  -- `serve_control_api`: the guard stands before every route but `/healthz`.
  unfoldable pub serve : Option Text → Option Text → Request → Handler
  serve psk header healthz = healthz_handler
  serve psk header (post_namespace req) = psk_guard psk header (register_handler req)
  serve psk header (delete_subscription id req) = psk_guard psk header (unsubscribe_handler id req)
  serve psk header (get_content id hash) = psk_guard psk header (content_handler id hash)
  serve psk header (put_content_at id hash bytes) =
      psk_guard psk header (put_content_handler id hash bytes)
