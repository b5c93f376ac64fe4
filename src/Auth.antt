-- ===== src/Auth.antt =====
-- internal/auth/auth.go: the errors of the package and the sessions of users.
pub mod Password
pub mod Oidc
pub mod Redirect
pub mod Gate
pub mod Accounts
pub mod Arrival
pub mod Sessions
use hookwatch.Models.{Session, Time, User}
use hookwatch.Prelude.{Bool, Result, String, err, ok, pos, ℕ, ℤ, ◌*◌}
use hookwatch.Store.Config.{add_duration}
use hookwatch.Store.Db.{Db, StoreError, Write, second}
use hookwatch.Store.Sessions.{create_session, delete_session, get_session}
use hookwatch.Store.Users.{get_user}

-- The `Err…` values. `store_error` is an error of the store that is passed on, `hash_failed` one of
-- bcrypt, `oidc_failed` one of the identity provider or of its answer.
pub data AuthError : Type 0 where
  invalid_credentials email_taken registration_closed weak_password unsupported_auth_mode :
      AuthError
  oidc_email_required oidc_account_conflict oidc_invalid_nonce oidc_failed hash_failed : AuthError
  store_error : StoreError → AuthError

-- SessionDuration
abbrev pub session_duration : ℤ
session_duration = pos (7 * 24 * 3600 * second)

-- The clock, the fresh identifier, and what is known of the client that logs in.
pub record Login : Type 0 where
  pub now : Time
  pub session_id : String
  pub ip : String
  pub user_agent : String

unfoldable pub new_session : Login → String → Session
new_session login user_id = record {
  id = login.session_id;
  user_id = user_id;
  created_at = login.now;
  expires_at = add_duration login.now session_duration;
  ip = login.ip;
  user_agent = login.user_agent;
}

unfoldable pub opened : Session → Result StoreError (Unit {0}) × Db → Result AuthError Session × Db
opened session (ok u, db) = (ok session, db)
opened session (err e, db) = (err (store_error e), db)

-- createSession of the package
unfoldable pub open_session : Bool → Login → String → Db → Result AuthError Session × Db
unfolding new_session opened
open_session fails login user_id db =
    opened (new_session login user_id) (create_session fails (new_session login user_id) db)

-- The user of a session, with whom it is opened.
unfoldable pub with_user :
    User → Result AuthError Session × Db → Result AuthError (User × Session) × Db
with_user user (ok session, db) = (ok (user, session), db)
with_user user (err e, db) = (err e, db)

unfoldable pub session_user : Bool → Result StoreError Session → Db → Result StoreError User
session_user fails (err e) db = err e
session_user fails (ok session) db = get_user fails session.user_id db

-- `fails` is a failure of GetSession, `user_fails` one of GetUser.
unfoldable pub validate_session : Bool → Bool → Time → String → Db → Result StoreError User
unfolding session_user
validate_session fails user_fails now session_id db =
    session_user user_fails (get_session fails session_id now db) db

unfoldable pub logout : Bool → String → Write ℕ
logout fails session_id = delete_session fails session_id
