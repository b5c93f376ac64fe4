-- ===== src/Api/Payload.antt =====
-- internal/api/tokens.go and access.go: what a client sets of a hook, and which settings are valid.
use hookwatch.Api.Answer.{normalized_auth_mode}
use hookwatch.Authz.{is_admin, is_owner}
use hookwatch.Models.{Token, User}
use hookwatch.Prelude.{
  Bool, Option, Result, String, err, if◌then◌else◌, is_some, ltb_ℤ, nat_eq, none, not, ok, or_else,
  pos, some, string_eq, to_lower, trim_space, true, ℤ, ◌&&◌, ◌==◌, ◌||◌,
}

-- tokenPayload
pub record TokenPayload : Type 0 where
  pub default_status : Option ℤ
  pub default_content_type : Option String
  pub default_content : Option String
  pub legacy_default_body : Option String
  pub max_requests : Option ℤ
  pub timeout : Option ℤ
  pub cors : Option Bool
  pub legacy_cors_enabled : Option Bool
  pub receive_mode : Option String
  pub view_mode : Option String
  pub persistent : Option Bool
  pub rate_limit : Option ℤ
  pub signature_provider : Option String
  pub signature_secret : Option String

-- The first of the two that is set.
abbrev either_of {ℓ} : {A : Type ℓ} → Option A → Option A → A → A
either_of (some a) legacy old = a
either_of none legacy old = or_else legacy old

-- A blank secret takes the secret away.
abbrev secret_of : Option String → Option String → Option String
secret_of none old = old
secret_of (some s) old = if trim_space s == "" then none else some (trim_space s)

abbrev trimmed_of : Option String → String → String
trimmed_of none old = old
trimmed_of (some s) old = trim_space s

unfoldable pub apply_token_payload : Token → TokenPayload → Token
apply_token_payload token payload = record token {
  default_status = or_else payload.default_status token.default_status;
  default_content_type = or_else payload.default_content_type token.default_content_type;
  default_content =
      either_of payload.default_content payload.legacy_default_body token.default_content;
  timeout = or_else payload.timeout token.timeout;
  max_requests = or_else payload.max_requests token.max_requests;
  cors = either_of payload.cors payload.legacy_cors_enabled token.cors;
  receive_mode = or_else payload.receive_mode token.receive_mode;
  view_mode = or_else payload.view_mode token.view_mode;
  persistent = or_else payload.persistent token.persistent;
  rate_limit = or_else payload.rate_limit token.rate_limit;
  signature_provider = trimmed_of payload.signature_provider token.signature_provider;
  signature_secret = secret_of payload.signature_secret token.signature_secret;
}

-- Whether a mode is one of the two.
abbrev pub is_mode : String → Bool
is_mode s = s == "public" || s == "private"

unfoldable pub validate_and_normalize_token_access : Token → String → Result String Token
validate_and_normalize_token_access token auth_mode =
    if not (is_mode token.receive_mode)
    then err "receive_mode must be public or private"
    else if not (is_mode token.view_mode)
    then err "view_mode must be public or private"
    else if normalized_auth_mode auth_mode == "none"
    then ok (record token { view_mode = "public" })
    else ok token

abbrev pub is_blank : Option String → Bool
is_blank none = true
is_blank (some s) = trim_space s == ""

abbrev pub is_provider : String → Bool
is_provider s = s == "" || s == "github" || s == "stripe"

-- The provider and its secret.
unfoldable pub validate_signature : Token → Result String Token
validate_signature token =
    if not (is_provider token.signature_provider)
    then err "signature_provider must be empty, github, or stripe"
    else if token.signature_provider == ""
    then ok (record token { signature_secret = none })
    else if is_blank token.signature_secret
    then err "signature_secret is required when signature_provider is set"
    else ok token

-- Who may make a hook persistent.
unfoldable pub validate_persistence : String → Option User → Bool → Token → Result String Token
validate_persistence auth_mode user changed token =
    if token.persistent && auth_mode == "none"
    then err "persistent tokens require authentication"
    else if token.persistent && not (is_some token.owner_id)
    then err "persistent tokens require an authenticated owner"
    else if changed && not (is_owner user token) && not (is_admin user)
    then err "only the owner or an admin can change persistence"
    else ok token

abbrev pub and_then : Result String Token → (Token → Result String Token) → Result String Token
and_then (err e) f = err e
and_then (ok token) f = f token

unfoldable pub validate_advanced_token_config :
    String → Option User → Token → Bool → Result String Token
unfolding validate_signature validate_persistence
validate_advanced_token_config auth_mode user token changed =
    and_then
      (validate_signature
        (record token { signature_provider = to_lower (trim_space token.signature_provider) }))
      (validate_persistence auth_mode user changed)

unfoldable pub validate_token_config : Token → Result String Token
validate_token_config token =
    if ltb_ℤ token.default_status (pos 100) || ltb_ℤ (pos 999) token.default_status
    then err "default_status must be between 100 and 999"
    else if trim_space token.default_content_type == ""
    then err "default_content_type must not be empty"
    else if ltb_ℤ token.max_requests (pos 1)
    then err "max_requests must be at least 1"
    else if ltb_ℤ token.timeout (pos 0) || ltb_ℤ (pos 10) token.timeout
    then err "timeout must be between 0 and 10"
    else ok token

-- The three validations, in the order of createToken and updateToken.
unfoldable pub validated : String → Option User → Bool → Token → Result String Token
unfolding validate_and_normalize_token_access validate_advanced_token_config validate_token_config
validated auth_mode user changed token =
    and_then
      (and_then (validate_and_normalize_token_access token auth_mode)
        (λ t. validate_advanced_token_config auth_mode user t changed))
      validate_token_config
