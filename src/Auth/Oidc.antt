-- ===== src/Auth/Oidc.antt =====
-- internal/auth/oidc.go: accounts of an identity provider.
pub mod Identity
use Prim.Native.String as NativeString
use Prim.Native.Char.{code}
use hookwatch.Auth.{
  AuthError, Login, oidc_account_conflict, oidc_email_required, oidc_failed, oidc_invalid_nonce,
  open_session, store_error, with_user,
}
use hookwatch.Auth.Password.{created_user, first_role}
use hookwatch.Auth.Redirect.{normalize_redirect_path}
use hookwatch.Models.{Session, Time, User}
use hookwatch.Prelude.{
  Bool, Option, Result, String, [], count, err, if◌then◌else◌, nat_eq, none, not, ok, some,
  string_eq, trim_space, ℕ, ◌==◌, ◌>>=◌, ◌∷◌,
}
use hookwatch.Store.Db.{Db, StoreError, not_found}
use hookwatch.Store.Users.{count_users, create_user, get_user_by_email, get_user_by_oidc}

-- oidcClaims
pub record Claims : Type 0 where
  pub subject : String
  pub email : String
  pub name : String
  pub nonce : String

-- What an ID token carries: its own subject, and its claims, `none` where they do not decode.
pub record IdToken : Type 0 where
  pub subject : String
  pub claims : Option Claims

-- The packages oauth2 and go-oidc, of which nothing is assumed. `exchange` is Exchange: `none` for an
-- error, else the text that the answer has as its id_token. `verify` is the verifier of ID tokens,
-- `auth_code_url` AuthCodeURL for a base URL, a state and a nonce.
pub record Provider : Type 0 where
  pub exchange : String → String → Option (Option String)
  pub verify : String → Option IdToken
  pub auth_code_url : String → String → String → String

-- OIDCAuthRequest
pub record OidcAuthRequest : Type 0 where
  pub url : String
  pub state : String
  pub nonce : String
  pub redirect_path : String

-- Which of the store's calls fail in CompleteOIDCAuth.
pub record OidcFaults : Type 0 where
  pub by_oidc : Bool
  pub by_email : Bool
  pub count : Bool
  pub create : Bool
  pub session : Bool

drop_last_slashes : String → String
drop_last_slashes NativeString.[] = NativeString.[]
drop_last_slashes (NativeString.◌∷◌ c s) =
    let rest = drop_last_slashes s in
    elim rest [
      | NativeString.[] ↦
          if code c == b'/' then NativeString.[] else NativeString.◌∷◌ c NativeString.[]
      | NativeString.◌∷◌ d r ↦ NativeString.◌∷◌ c (NativeString.◌∷◌ d r)
    ]

-- The issuer without spaces around it and slashes at its end; a base URL is cut in the same way.
unfoldable pub normalize_oidc_issuer : String → String
unfolding drop_last_slashes
normalize_oidc_issuer issuer = drop_last_slashes (trim_space issuer)

-- newFlowSecret is `none` where the source of randomness fails.
unfoldable pub start_oidc_auth :
    Provider → Option String → Option String → String → String → Result AuthError OidcAuthRequest
start_oidc_auth provider none _ base_url path = err oidc_failed
start_oidc_auth provider (some state) none base_url path = err oidc_failed
start_oidc_auth provider (some state) (some secret) base_url path = ok record {
  url = provider.auth_code_url (normalize_oidc_issuer base_url) state secret;
  state = state;
  nonce = secret;
  redirect_path = normalize_redirect_path path;
}

unfoldable pub oidc_user : String → Time → String → String → String → String → ℕ → User
unfolding first_role
oidc_user issuer now id subject email name n = record {
  id = id;
  email = email;
  display_name = if name == "" then email else name;
  password_hash = none;
  oidc_provider = some issuer;
  oidc_subject = some subject;
  global_role = first_role n;
  created_at = now;
  updated_at = now;
}

unfoldable pub provide_user :
    Bool
    → String
    → Time
    → String
    → String
    → String
    → String
    → Result StoreError ℕ
    → Db
    → Result AuthError User × Db
unfolding oidc_user created_user
provide_user fails issuer now id subject email name (err e) db = (err (store_error e), db)
provide_user fails issuer now id subject email name (ok n) db =
    let user = oidc_user issuer now id subject email name n in
    created_user user (create_user fails user db)

-- An account with the same address is not taken over.
unfoldable pub unless_taken :
    OidcFaults
    → String
    → Time
    → String
    → String
    → String
    → String
    → Result StoreError User
    → Db
    → Result AuthError User × Db
unfolding provide_user
unless_taken faults issuer now id subject email name (ok user) db = (err oidc_account_conflict, db)
unless_taken faults issuer now id subject email name (err not_found) db =
    provide_user faults.create issuer now id subject email name (count_users faults.count db) db
unless_taken faults issuer now id subject email name (err e) db = (err (store_error e), db)

unfoldable pub unless_known :
    OidcFaults
    → String
    → Time
    → String
    → String
    → String
    → String
    → Result StoreError User
    → Db
    → Result AuthError User × Db
unfolding unless_taken
unless_known faults issuer now id subject email name (ok user) db = (ok user, db)
unless_known faults issuer now id subject email name (err not_found) db =
    unless_taken faults issuer now id subject email name
      (get_user_by_email faults.by_email email db) db
unless_known faults issuer now id subject email name (err e) db = (err (store_error e), db)

unfoldable pub resolve_user :
    OidcFaults → String → Time → String → Claims → Db → Result AuthError User × Db
unfolding unless_known
resolve_user faults issuer now id claims db =
    if trim_space claims.subject == ""
    then (err oidc_failed, db)
    else if trim_space claims.email == ""
    then (err oidc_email_required, db)
    else unless_known faults issuer now id (trim_space claims.subject) (trim_space claims.email)
        (trim_space claims.name)
        (get_user_by_oidc faults.by_oidc issuer (trim_space claims.subject) db) db

unfoldable pub resolved :
    Bool → Login → Result AuthError User × Db → Result AuthError (User × Session) × Db
resolved fails login (ok user, db) = with_user user (open_session fails login user.id db)
resolved fails login (err e, db) = (err e, db)

-- A claim without a subject takes the one of the ID token.
unfoldable pub with_subject : String → Claims → Claims
with_subject subject claims =
    if claims.subject == "" then record claims { subject = subject } else claims

-- The text of an ID token, and its claims, if every step before the check of the nonce succeeds.
unfoldable pub id_token_claims : Provider → Option (Option String) → Option Claims
unfolding with_subject
id_token_claims provider none = none
id_token_claims provider (some none) = none
id_token_claims provider (some (some raw)) =
    if trim_space raw == ""
    then none
    else provider.verify raw >>= λ token. token.claims >>= λ c. some (with_subject token.subject c)

unfoldable pub complete_claims :
    OidcFaults
    → String
    → String
    → Login
    → String
    → Option Claims
    → Db
    → Result AuthError (User × Session) × Db
unfolding resolve_user resolved
complete_claims faults issuer id login expected_nonce none db = (err oidc_failed, db)
complete_claims faults issuer id login expected_nonce (some claims) db =
    if not (trim_space claims.nonce == trim_space expected_nonce)
    then (err oidc_invalid_nonce, db)
    else resolved faults.session login (resolve_user faults issuer login.now id claims db)

unfoldable pub complete_oidc_auth :
    Provider
    → OidcFaults
    → String
    → String
    → Login
    → String
    → String
    → String
    → Db
    → Result AuthError (User × Session) × Db
unfolding complete_claims id_token_claims
complete_oidc_auth provider faults issuer id login base_url code expected_nonce db =
    complete_claims faults issuer id login expected_nonce
      (id_token_claims provider (provider.exchange (normalize_oidc_issuer base_url) code)) db
