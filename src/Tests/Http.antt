-- ===== src/Tests/Http.antt =====
-- The theorems on the control API of `rust/src/node.rs` at concrete requests.
use trail_stash.Base.{◌≡◌, ◌≢◌, refl, some, none, [], ◌∷◌, bytes_discrete, arith}
use trail_stash.Content.{want, is_tracked_for}
use trail_stash.Api.{parse_namespace_hex}
use trail_stash.Api.NamespaceHex.{parse_namespace_hex_iff}
use trail_stash.Auth.{bearer_token, authorize}
use trail_stash.HashSet
use trail_stash.Text.{encode_char, as_bytes, trim_start, trim_end, is_whitespace}
use trail_stash.Text.Hex.{hex_encode, lower_digit, join_u8}
use trail_stash.Api.{namespace_bytes, lower_hex_val, parse_platform}
use trail_stash.Http.{psk_guard, put_content_handler}
use trail_stash.Node.Serve.{put_content, store_bytes}
use trail_stash.Subscriptions.{is_known}
use trail_stash.Base.{ℕ_discrete}
use trail_stash.Http.{
  response, status_only, with_message, serve, unsubscribe_handler, UnsubscribeRequest, get_content,
  put_content_at,
}
use trail_stash.Http.Guard.{serve_denied}
use trail_stash.Http.Untrimmed.{unsubscribe_handler_padded}
use trail_stash.Http.Upload.{upload_download}
use trail_stash.HashMap
use trail_stash.HashMap.{HashMap, get-insert}
use trail_stash.Node.{StashNode}
use trail_stash.Node.Linked.{IsValid}
use trail_stash.Node.Receive.{receive}
use trail_stash.Push.{namespace_hex}
use trail_stash.Result.{ok}
use trail_stash.Subscriptions.{Platform}
use trail_stash.Subscriptions.Laws.{wakes}
use trail_stash.Text.{Text, text, trim}
use trail_stash.Tests.Node.{store, store-IsBlobStore, home, photo, waiting, waiting-IsValid}

abbrev home_id : Text
home_id = text "1313131313131313131313131313131313131313131313131313131313131313"

-- The same node, for which the namespace is registered.
abbrev serving : StashNode store
serving = record waiting { registry = record { known = home ∷ []; subs = [] } }

serving-IsValid : IsValid store serving
serving-IsValid = record {
  valid = waiting-IsValid.valid;
  distinct = waiting-IsValid.distinct;
  linked = waiting-IsValid.linked;
}

accepted :
    (serve store none none (put_content_at home_id photo photo) serving).1
    ≡ response (status_only 204)
unfolding serve psk_guard authorize put_content_handler parse_namespace_hex as_bytes namespace_bytes
    lower_hex_val join_u8 put_content is_known HashSet.contains is_tracked_for store_bytes receive
    want HashMap.get bytes_discrete ℕ_discrete HashMap.insert encode_char HashSet.insert
accepted = refl

upload_download_example :
    (serve store none none
      (get_content home_id photo)
      (serve store none none (put_content_at home_id photo photo) serving).0).1
    ≡ response (record { status = 200; body = photo })
upload_download_example =
    upload_download store store-IsBlobStore none none home_id photo photo serving serving-IsValid
      accepted

abbrev key : Text
key = text "key"

serve_denied_example :
    serve store (some key) none (put_content_at home_id photo photo) serving
    ≡ (serving, response (with_message 401 (text "missing or invalid pre-shared key")))
unfolding bearer_token
serve_denied_example =
    serve_denied store key none (put_content_at home_id photo photo) serving (omega arith) tt
      (λ e. cc) (λ e. ground (arith, e))

abbrev padded : UnsubscribeRequest
padded = record { push_token = text "t "; platform = text "apns" }

parsed_id : parse_namespace_hex home_id ≡ ok home
unfolding namespace_hex hex_encode lower_digit
parsed_id = (parse_namespace_hex_iff home_id home).1 (omega arith, refl, refl)

trimmed_differs : trim padded.push_token ≢ padded.push_token
unfolding trim trim_start trim_end is_whitespace
trimmed_differs = λ e. cc

unsubscribe_handler_padded_example :
    wakes home
      (record { platform = Platform.apns; token = trim (text "t ") })
      (unsubscribe_handler store home_id padded serving).0.registry
    ≡ wakes home (record { platform = Platform.apns; token = trim (text "t ") }) serving.registry
unfolding parse_platform bytes_discrete ℕ_discrete
unsubscribe_handler_padded_example =
    unsubscribe_handler_padded store home_id home padded Platform.apns serving parsed_id refl
      trimmed_differs
