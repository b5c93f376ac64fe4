-- ===== src/Api/Secret.antt =====
-- internal/api/secret.go: the secret that a private hook asks its callers for.
-- `hash` is hashReceiveSecret (SHA-256 in hexadecimal), a parameter; the text that
-- generateReceiveSecret draws is an argument, `none` where the source of randomness fails.
pub mod Lifecycle
use hookwatch.Header.{Header, del, get}
use hookwatch.Models.{Token}
use hookwatch.Prelude.{
  Bool, Option, Result, String, [], err, false, holds, if◌then◌else◌, is_some, nat_eq, none, not,
  ok, some, string_eq, suc, trim_space, true, zero, ℕ, ◌&&◌, ◌==◌, ◌||◌, ◌∷◌,
}

-- receiveModePrivate, receiveModePublic
abbrev pub receive_mode_private : String
receive_mode_private = "private"

-- receiveSecretSource
pub data SecretSource : Type 0 where
  from_nothing from_header from_query from_basic : SecretSource

-- The first characters of a text.
unfoldable pub prefix : ℕ → String → String
prefix zero s = String.[]
prefix (suc n) String.[] = String.[]
prefix (suc n) (String.◌∷◌ c s) = String.◌∷◌ c (prefix n s)

unfoldable pub clear_secret : Token → Token
clear_secret token = record token { receive_secret_hash = none; receive_secret_prefix = none }

-- The result is the secret to show, if a new one was made, and the token as it is left.
abbrev pub SecretResult : Type 0
SecretResult = Result (Unit {0}) (Option String) × Token

unfoldable pub set_secret : (String → String) → Option String → Token → SecretResult
unfolding prefix
set_secret hash none token = (err tt, token)
set_secret hash (some secret) token = (
  ok (some secret),
  record token {
    receive_secret_hash = some (hash secret);
    receive_secret_prefix = some (prefix 4 secret);
  },
)

unfoldable pub reconcile_receive_secret :
    (String → String) → Option String → Token → Bool → SecretResult
unfolding clear_secret set_secret
reconcile_receive_secret hash generated token previously_private =
    if not (token.receive_mode == receive_mode_private)
    then (ok none, clear_secret token)
    else if previously_private
        && is_some token.receive_secret_hash
        && is_some token.receive_secret_prefix
    then (ok none, token)
    else set_secret hash generated token

unfoldable pub rotate_receive_secret : (String → String) → Option String → Token → SecretResult
unfolding clear_secret set_secret
rotate_receive_secret hash generated token =
    if not (token.receive_mode == receive_mode_private)
    then (ok none, clear_secret token)
    else set_secret hash generated token

unfoldable pub validate_receive_secret : (String → String) → Token → String → Bool
validate_receive_secret hash token provided =
    not (provided == "") && holds token.receive_secret_hash (hash provided)

-- What the handler reads of a request. `basic_password` is the password of r.BasicAuth.
pub record Caller : Type 0 where
  pub header : Header
  pub query : Header
  pub basic_password : Option String

abbrev pub basic_secret : Option String → String × SecretSource
basic_secret none = ("", from_nothing)
basic_secret (some password) =
    if trim_space password == "" then ("", from_nothing) else (password, from_basic)

unfoldable pub extract_receive_secret : Caller → String × SecretSource
extract_receive_secret r =
    if not (trim_space (get "X-Hook-Secret" r.header) == "")
    then (trim_space (get "X-Hook-Secret" r.header), from_header)
    else if not (trim_space (get "secret" r.query) == "")
    then (trim_space (get "secret" r.query), from_query)
    else basic_secret r.basic_password

abbrev pub is_basic : SecretSource → Bool
is_basic from_basic = true
is_basic source = false

unfoldable pub sanitized_capture_headers : Header → SecretSource → Bool → Header
sanitized_capture_headers header source is_private =
    if not is_private
    then header
    else if is_basic source
    then del "Authorization" (del "X-Hook-Secret" header)
    else del "X-Hook-Secret" header

-- `parse` is url.ParseQuery, `none` where it gives an error, and `encode` is Values.Encode.
unfoldable pub sanitized_capture_query :
    (String → Option Header) → (Header → String) → String → Bool → String
sanitized_capture_query parse encode raw is_private =
    if not is_private || trim_space raw == ""
    then raw
    else elim (parse raw) [ none ↦ raw | some values ↦ encode (del "secret" values) ]
