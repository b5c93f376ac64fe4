-- ===== src/Auth/Gate.antt =====
-- internal/auth/middleware.go: who a request acts for, and which requests pass.
use hookwatch.Auth.{validate_session}
use hookwatch.Models.{Time, User}
use hookwatch.Prelude.{
  Bool, Option, Result, String, err, if◌then◌else◌, nat_eq, none, ok, some, string_eq, ℕ, ◌==◌,
}
use hookwatch.Store.Db.{Db, StoreError}

unfoldable pub user_or_none : Result StoreError User → Option User
user_or_none (ok user) = some user
user_or_none (err e) = none

-- sessionMiddleware: the user that it puts into the context; `cookie` is none where there is none.
unfoldable pub session_middleware : Bool → Bool → Time → Option String → Db → Option User
unfolding user_or_none
session_middleware fails user_fails now none db = none
session_middleware fails user_fails now (some session_id) db =
    if session_id == ""
    then none
    else user_or_none (validate_session fails user_fails now session_id db)

-- What a middleware does with a request: it passes it on, or answers with a status.
pub data Passage : Type 0 where
  goes_on : Passage
  answers : ℕ → Passage

unfoldable pub require_auth : Option User → Passage
require_auth none = answers 401
require_auth (some user) = goes_on

unfoldable pub require_admin : Option User → Passage
require_admin none = answers 401
require_admin (some user) = if user.global_role == "admin" then goes_on else answers 403
