-- ===== src/Api/AuthHandlers.antt =====
-- internal/api/auth.go: the handlers of accounts and sessions. The session's cookie that a handler sets is
-- in its answer.
use Prim.Native.String as NativeString
use Prim.Native.Char.{code}
use hookwatch.Api.Answer.{Answer, Refusal, refused, replied}
use hookwatch.Auth.{
  AuthError, Login, email_taken, invalid_credentials, logout, oidc_account_conflict,
  oidc_email_required, registration_closed, unsupported_auth_mode, weak_password,
}
use hookwatch.Auth.Oidc.{OidcAuthRequest, OidcFaults, Provider, complete_oidc_auth}
use hookwatch.Auth.Password.{RegisterFaults, login_password, register}
use hookwatch.Auth.Redirect.{normalize_redirect_path}
use hookwatch.Header.{Header}
use hookwatch.Models.{Session, Time, User}
use hookwatch.Prelude.{
  Bool, List, Option, Result, String, [], err, if◌then◌else◌, nat_eq, none, not, ok, some, split,
  string_eq, trim_space, ◌&&◌, ◌==◌, ◌||◌, ◌∷◌,
}
use hookwatch.Store.Db.{Db}

-- registerRequest and loginRequest
pub record RegisterRequest : Type 0 where
  pub email : String
  pub display_name : String
  pub password : String

pub record LoginRequest : Type 0 where
  pub email : String
  pub password : String

unfoldable pub register_refusal : AuthError → Refusal
register_refusal email_taken = (409, "email already registered")
register_refusal registration_closed = (403, "registration is not allowed")
register_refusal weak_password = (400, "password must be at least 8 characters")
register_refusal e = (500, "failed to register")

unfoldable pub registered : Result AuthError User × Db → Answer User × Db
unfolding register_refusal
registered (err e, db) = (refused (register_refusal e), db)
registered (ok user, db) = (replied 201 user, db)

-- register: the address is trimmed, and stands for a name that is not given.
unfoldable pub handle_register :
    (String → Option String)
    → Bool
    → RegisterFaults
    → Time
    → String
    → Option RegisterRequest
    → Db
    → Answer User × Db
unfolding registered
handle_register hash_password allow faults now id none db = (refused (400, "invalid JSON body"), db)
handle_register hash_password allow faults now id (some req) db =
    if trim_space req.email == ""
    then (refused (400, "email is required"), db)
    else registered (
        register hash_password allow faults now id
          (record {
            email = trim_space req.email;
            display_name =
                if req.display_name == "" then trim_space req.email else req.display_name;
            password = req.password;
          })
          db)

unfoldable pub login_refusal : AuthError → Refusal
login_refusal invalid_credentials = (401, "invalid email or password")
login_refusal e = (500, "failed to log in")

-- The user and the identifier in the session's cookie.
unfoldable pub logged_in : Result AuthError (User × Session) × Db → Answer (User × String) × Db
unfolding login_refusal
logged_in (err e, db) = (refused (login_refusal e), db)
logged_in (ok (user, session), db) = (replied 200 (user, session.id), db)

-- login
unfoldable pub handle_login :
    (String → String → Bool)
    → Bool
    → Bool
    → Login
    → Option LoginRequest
    → Db
    → Answer (User × String) × Db
unfolding logged_in
handle_login compare_password query_fails fails login none db =
    (refused (400, "invalid JSON body"), db)
handle_login compare_password query_fails fails login (some req) db =
    if trim_space req.email == "" || req.password == ""
    then (refused (400, "email and password are required"), db)
    else logged_in (
        login_password compare_password query_fails fails login (trim_space req.email) req.password
          db)

-- logout: an error of the store is dropped, and the cookie is cleared in any case.
unfoldable pub handle_logout : Bool → Option String → Db → Db
handle_logout fails none db = db
handle_logout fails (some session_id) db =
    if session_id == "" then db else (logout fails session_id db).1

-- me
unfoldable pub handle_me : Option User → Answer User
handle_me none = refused (401, "not authenticated")
handle_me (some user) = replied 200 user

abbrev first_part : List String → String
first_part [] = ""
first_part (s ∷ rest) = trim_space s

-- baseURLFromRequest, of the headers X-Forwarded-Proto and X-Forwarded-Host and the request's host.
unfoldable pub base_url_from_request : String → String → String → Bool → String
base_url_from_request proto forwarded host tls =
    let scheme =
      if not (first_part (split b',' proto) == "")
      then first_part (split b',' proto)
      else if tls
      then "https"
      else "http" in
    let name =
      if first_part (split b',' forwarded) == ""
      then trim_space host
      else first_part (split b',' forwarded) in
    NativeString.◌++◌ scheme (NativeString.◌++◌ "://" name)

-- A redirection, with the session's cookie and the cookies of the flow that it sets.
pub data BrowserAnswer : Type 0 where
  error_page : Refusal → BrowserAnswer
  redirects_to : String → Option String → Option OidcAuthRequest → BrowserAnswer

-- authorizeOIDC
unfoldable pub handle_authorize : Result AuthError OidcAuthRequest → BrowserAnswer
handle_authorize (err unsupported_auth_mode) = error_page (404, "404 page not found")
handle_authorize (err e) = error_page (500, "failed to start oidc login")
handle_authorize (ok flow) = redirects_to flow.url none (some flow)

-- The request to the callback: the two parameters, and the three cookies, empty where there is none.
pub record Callback : Type 0 where
  pub state : String
  pub code : String
  pub state_cookie : String
  pub nonce_cookie : String
  pub redirect_cookie : String

-- redirectOIDCError; `encode` is Values.Encode.
unfoldable pub oidc_error_location : (Header → String) → String → String → String
oidc_error_location encode path code = NativeString.◌++◌ "/login?" (
    encode
      (("error", code ∷ []) ∷ (if not (path == "/") then ("redirect", path ∷ []) ∷ [] else [])))

unfoldable pub oidc_error_code : AuthError → String
oidc_error_code oidc_email_required = "email_required"
oidc_error_code oidc_account_conflict = "account_conflict"
oidc_error_code e = "oidc_failed"

unfoldable pub called_back :
    (Header → String) → String → Result AuthError (User × Session) × Db → BrowserAnswer × Db
unfolding oidc_error_location oidc_error_code
called_back encode path (err e, db) =
    (redirects_to (oidc_error_location encode path (oidc_error_code e)) none none, db)
called_back encode path (ok (user, session), db) = (redirects_to path (some session.id) none, db)

-- Whether the state is the one that the flow began with, and there is a nonce.
unfoldable pub state_matches : Callback → Bool
state_matches r =
    not (trim_space r.state_cookie == "")
    && not (trim_space r.nonce_cookie == "")
    && trim_space r.state == trim_space r.state_cookie

-- callbackOIDC; sanitizeRedirectPath is the same function as normalizeRedirectPath of internal/auth.
unfoldable pub handle_callback :
    (Header → String)
    → Provider
    → OidcFaults
    → String
    → String
    → Login
    → String
    → Callback
    → Db
    → BrowserAnswer × Db
unfolding called_back state_matches oidc_error_location
handle_callback encode provider faults issuer id login base_url r db =
    let path = normalize_redirect_path (trim_space r.redirect_cookie) in
    if trim_space r.state == "" || trim_space r.code == ""
    then (error_page (400, "missing oidc callback parameters"), db)
    else if not (state_matches r)
    then (redirects_to (oidc_error_location encode path "oidc_failed") none none, db)
    else called_back encode path (
        complete_oidc_auth provider faults issuer id login base_url (trim_space r.code)
          (trim_space r.nonce_cookie) db)
