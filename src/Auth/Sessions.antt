-- ===== src/Auth/Sessions.antt =====
-- internal/auth/auth.go and internal/store/users.go: the sessions as a map from identifiers, which
-- forgets the order of the rows. A cleanup takes the expired sessions out of the map, so that their
-- identifiers are free again.
pub mod Refinement
use hookwatch.Auth.{
  AuthError, Login, logout, new_session, open_session, opened, session_user, store_error,
  validate_session,
}
use hookwatch.Models.{Session, Time, User}
use hookwatch.Prelude.{
  Bool, Bool-cases, HasUniqueKeys, HasUniqueKeys-append, HasUniqueKeys-select, List, Option, Result,
  String, [], any, ap, arith, eq_iff, err, false, find-append_fresh, find-append_old, has_row,
  if◌then◌else◌, inl, inr, is_ok, is_some, leb, ltb, nat_eq, none, not, ok, refl, retain, row_with,
  row_with-select, row_with_and, select, some, string_eq, sym, true, ◌++◌, ◌==◌, ◌∙◌, ◌∷◌, ◌≡◌, ◌⊎◌,
}
use hookwatch.Store.Db.{
  Db, StoreError, driver, foreign_key_violation, format_time, or_not_found, unique_violation,
  user_exists,
}
use hookwatch.Store.Sessions.{
  create_session, delete_expired_sessions, delete_session, delete_sessions_where, get_session,
  session_row,
}
use hookwatch.Store.Users.{find_user, get_user}

-- The calls that touch the table of sessions, each with the failures of the store in it: createSession
-- of a login for a user, Logout, ValidateSession, and a tick of RunSessionCleanup.
pub data SessionCall : Type 0 where
  opens : Bool → Login → String → SessionCall
  closes : Bool → String → SessionCall
  validates : Bool → Bool → Time → String → SessionCall
  sweeps : Bool → Time → SessionCall

-- What the caller sees of it; the cleanup only writes a log.
pub data SessionReply : Type 0 where
  session_opened : Result AuthError Session → SessionReply
  session_closed : Bool → SessionReply
  user_validated : Result StoreError User → SessionReply
  swept : SessionReply

unfoldable pub step_sessions : SessionCall → Db → SessionReply × Db
step_sessions (opens fails login user_id) db =
    let (result, db') = open_session fails login user_id db in (session_opened result, db')
step_sessions (closes fails id) db =
    let (result, db') = logout fails id db in (session_closed (is_ok result), db')
step_sessions (validates fails user_fails now id) db =
    (user_validated (validate_session fails user_fails now id db), db)
step_sessions (sweeps fails now) db =
    let (result, db') = delete_expired_sessions fails now db in (swept, db')

abbrev pub session_replies : List SessionCall → Db → List SessionReply
session_replies [] db = []
session_replies (c ∷ cs) db = (step_sessions c db).0 ∷ session_replies cs (step_sessions c db).1

-- The abstract table: the session with each identifier.
abbrev pub SessionMap : Type 0
SessionMap = String → Option Session

abbrev pub map_set : String → Option Session → SessionMap → SessionMap
map_set id value m = λ i. if id == i then value else m i

-- A session that has not expired, in the whole seconds that the store keeps.
abbrev pub live_at : Time → Session → Bool
live_at now s = ltb (format_time now) s.expires_at

abbrev pub spec_step : SessionCall → Db → SessionMap → SessionReply × SessionMap
spec_step (opens fails login user_id) db m =
    let s = new_session login user_id in
    if fails
    then (session_opened (err (store_error driver)), m)
    else if is_some (m login.session_id)
    then (session_opened (err (store_error unique_violation)), m)
    else if user_exists user_id db
    then (session_opened (ok s), map_set login.session_id (some (session_row s)) m)
    else (session_opened (err (store_error foreign_key_violation)), m)
spec_step (closes fails id) db m =
    if fails then (session_closed false, m) else (session_closed true, map_set id none m)
spec_step (validates fails user_fails now id) db m = (
  user_validated (
      if fails
      then err driver
      else session_user user_fails (or_not_found (retain (live_at now) (m id))) db),
  m,
)
spec_step (sweeps fails now) db m = (swept, if fails then m else (λ i. retain (live_at now) (m i)))

abbrev pub spec_replies : List SessionCall → Db → SessionMap → List SessionReply
spec_replies [] db m = []
spec_replies (c ∷ cs) db m = (spec_step c db m).0 ∷ spec_replies cs db (spec_step c db m).1
