-- ===== src/Api.antt =====
-- `rust/src/api.rs`: the request shapes of the control API and their validation.
pub mod NamespaceHex
pub mod Register
use trail_stash.Base.{
  ℕ, zero, suc, ◌+◌, ◌-◌, Bool, true, false, not, ◌&&◌, ◌||◌, Option, none, some, List, [], ◌∷◌,
  Bytes, bytes_discrete, length, ltb, leb, ◌==◌, all, is_empty, if◌then◌else◌, ite,
}
use trail_stash.Result.{Result, ok, err, ◌>>=◌, ok_or}
use trail_stash.Subscriptions.{NamespaceId, Platform, apns, fcm, PushSubscription}
use trail_stash.Text.{Text, text, as_bytes, len, trim}
use trail_stash.Text.Hex.{join_u8}

abbrev pub max_ticket_len : ℕ
max_ticket_len = 4096

abbrev pub max_token_len : ℕ
max_token_len = 512

abbrev pub min_ticket_len : ℕ
min_ticket_len = 16

pub record RegisterRequest : Type 0 where
  pub read_ticket : Text
  pub push_token : Option Text
  pub platform : Option Text

pub record ValidRegister : Type 0 where
  pub read_ticket : Text
  pub subscription : Option PushSubscription

pub data ApiError : Type 0 where
  bad_ticket bad_token bad_platform incomplete_push bad_namespace : ApiError

unfoldable pub parse_platform : Text → Option Platform
parse_platform s =
    ite (bytes_discrete s (text "apns")) (some apns)
      (ite (bytes_discrete s (text "fcm")) (some fcm) none)

-- `char::is_ascii_alphanumeric`
abbrev pub is_ascii_alphanumeric : ℕ → Bool
is_ascii_alphanumeric c =
    (leb b'0' c && leb c b'9') || (leb b'A' c && leb c b'Z') || (leb b'a' c && leb c b'z')

unfoldable pub looks_like_ticket : Text → Bool
looks_like_ticket s =
    (leb min_ticket_len (len s) && leb (len s) max_ticket_len) && all is_ascii_alphanumeric s

-- The `match` on the token and the platform.
unfoldable pub validate_push : Option Text → Option Text → Result ApiError (Option PushSubscription)
validate_push none none = ok none
validate_push (some token) (some platform) =
    let trimmed = trim token in
    if is_empty trimmed || ltb max_token_len (len trimmed) then err bad_token else do
      p ← ok_or bad_platform (parse_platform platform)
      ok (some (record { platform = p; token = trimmed }))
validate_push none (some platform) = err incomplete_push
validate_push (some token) none = err incomplete_push

unfoldable pub validate_register : RegisterRequest → Result ApiError ValidRegister
validate_register req =
    let ticket = trim req.read_ticket in
    if not (looks_like_ticket ticket) then err bad_ticket else do
      subscription ← validate_push req.push_token req.platform
      ok (record { read_ticket = ticket; subscription = subscription })

unfoldable pub lower_hex_val : ℕ → Option ℕ
lower_hex_val b =
    if leb b'0' b && leb b b'9'
    then some (b - b'0')
    else if leb b'a' b && leb b b'f'
    then some (b - b'a' + 10)
    else none

-- The loop over `0..32`, two bytes a round.
unfoldable pub namespace_bytes : Bytes → Result ApiError Bytes
namespace_bytes [] = ok []
namespace_bytes (_ ∷ []) = err bad_namespace
namespace_bytes (a ∷ b ∷ rest) = do
  hi ← ok_or bad_namespace (lower_hex_val a)
  lo ← ok_or bad_namespace (lower_hex_val b)
  out ← namespace_bytes rest
  ok (join_u8 hi lo ∷ out)

unfoldable pub parse_namespace_hex : Text → Result ApiError NamespaceId
parse_namespace_hex s =
    if not (len s == 64) then err bad_namespace else namespace_bytes (as_bytes s)
