-- ===== src/Tests/Api.antt =====
-- The theorems on `rust/src/api.rs` and `rust/src/auth.rs` at concrete inputs.
use trail_stash.Base.{arith, ◌≡◌, ◌↔◌, ◌++◌, refl, true, some, [], ◌∷◌, Bytes, All, IsByte, length}
use trail_stash.Base.{bytes_discrete, ℕ_discrete}
use trail_stash.Text.{is_whitespace, trim_start, trim_end}
use trail_stash.Auth.{to_ascii_lowercase}
use trail_stash.Api.{
  RegisterRequest, ValidRegister, validate_register, looks_like_ticket, parse_namespace_hex,
}
use trail_stash.Api.NamespaceHex.{parse_namespace_hex_iff}
use trail_stash.Api.Register.{Asks, validate_register_iff}
use trail_stash.Auth.{authorize, bearer_token, is_allowed, eq_ignore_ascii_case}
use trail_stash.Auth.Bearer.{client_is_allowed}
use trail_stash.Config.Bounds.{IsSetting}
use trail_stash.Base.{Option}
use trail_stash.Text.{as_bytes, encode_char}
use trail_stash.Text.Hex.{join_u8}
use trail_stash.Main.{load_secret_key, hex_32_bytes, lower_hex, decode_hex_32}
use trail_stash.Push.{namespace_hex}
use trail_stash.Result.{ok}
use trail_stash.Subscriptions.{Platform, NamespaceId}
use trail_stash.Text.{Text, text, trim, IsText}

abbrev pub nineteen : NamespaceId
nineteen =
    19 ∷ 19 ∷ 19 ∷ 19 ∷ 19 ∷ 19 ∷ 19 ∷ 19 ∷ 19 ∷ 19 ∷ 19 ∷ 19 ∷ 19 ∷ 19 ∷ 19 ∷ 19 ∷ 19 ∷ 19 ∷ 19
    ∷ 19 ∷ 19 ∷ 19 ∷ 19 ∷ 19 ∷ 19 ∷ 19 ∷ 19 ∷ 19 ∷ 19 ∷ 19 ∷ 19 ∷ 19 ∷ []

parse_namespace_hex_iff_example :
    (parse_namespace_hex (text "1313131313131313131313131313131313131313131313131313131313131313")
      ≡ ok nineteen)
    ↔ (All IsByte nineteen
        × (length nineteen ≡ 32)
        × (text "1313131313131313131313131313131313131313131313131313131313131313"
            ≡ namespace_hex nineteen))
parse_namespace_hex_iff_example =
    parse_namespace_hex_iff
      (text "1313131313131313131313131313131313131313131313131313131313131313") nineteen

abbrev request : RegisterRequest
request = record {
  read_ticket = text " docaaaaaaaaaaaaaaaa";
  push_token = some (text "t ");
  platform = some (text "fcm");
}

abbrev accepted : ValidRegister
accepted = record {
  read_ticket = text "docaaaaaaaaaaaaaaaa";
  subscription = some (record { platform = Platform.fcm; token = text "t" });
}

validate_register_iff_example : (validate_register request ≡ ok accepted) ↔ (
    (looks_like_ticket accepted.read_ticket ≡ true)
    × (accepted.read_ticket ≡ trim request.read_ticket)
    × Asks request.push_token request.platform accepted.subscription)
validate_register_iff_example = validate_register_iff request accepted

abbrev left : Bytes
left = 1 ∷ 2 ∷ []

abbrev right : Bytes
right = 1 ∷ 3 ∷ []

abbrev key : Text
key = text "key"

key-IsText : IsText key
key-IsText = omega arith

key-IsSetting : IsSetting key
unfolding trim trim_end trim_start is_whitespace
key-IsSetting = (refl, λ e. cc)

any_case : eq_ignore_ascii_case (text "BEARER") (text "bearer") ≡ true
unfolding eq_ignore_ascii_case to_ascii_lowercase bytes_discrete ℕ_discrete
any_case = refl

client_is_allowed_example :
    (is_allowed (authorize (some key) (bearer_token (some (text "BEARER" ++ b' ' ∷ key)))) ≡ true)
    ↔ (key ≡ key)
client_is_allowed_example =
    client_is_allowed key (text "BEARER") key key-IsSetting key-IsText key-IsSetting key-IsText
      any_case

abbrev pub environment : Text → Option Text
environment name = some (text " 1313131313131313131313131313131313131313131313131313131313131313")

pub loaded : load_secret_key environment ≡ ok nineteen
unfolding load_secret_key decode_hex_32 hex_32_bytes lower_hex as_bytes encode_char join_u8 trim
    trim_start trim_end is_whitespace
loaded = refl
