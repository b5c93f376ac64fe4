-- ===== src/Store/Sessions.antt =====
-- internal/store/users.go: the operations on the table of sessions.
use hookwatch.Models.{Session, Time}
use hookwatch.Prelude.{
  Bool, Result, String, [], any, count, err, find, if◌then◌else◌, leb, ltb, nat_eq, not, ok, select,
  string_eq, ℕ, ◌&&◌, ◌++◌, ◌==◌, ◌∷◌,
}
use hookwatch.Store.Db.{
  Db, StoreError, Write, driver, foreign_key_violation, format_time, or_not_found, unique_violation,
  user_exists,
}

unfoldable pub session_row : Session → Session
unfolding format_time
session_row session = record session {
  created_at = format_time session.created_at;
  expires_at = format_time session.expires_at;
}

unfoldable pub create_session : Bool → Session → Write (Unit {0})
unfolding session_row
create_session fails session db =
    if fails
    then (err driver, db)
    else if any (λ s. s.id == session.id) db.sessions
    then (err unique_violation, db)
    else if user_exists session.user_id db
    then (ok tt, record db { sessions = db.sessions ++ session_row session ∷ [] })
    else (err foreign_key_violation, db)

unfoldable pub get_session : Bool → String → Time → Db → Result StoreError Session
unfolding format_time
get_session fails id now db =
    if fails
    then err driver
    else or_not_found (find (λ s. s.id == id && ltb (format_time now) s.expires_at) db.sessions)

unfoldable pub delete_sessions_where : Bool → (Session → Bool) → Write ℕ
delete_sessions_where fails p db =
    if fails
    then (err driver, db)
    else (ok (count p db.sessions), record db { sessions = select (λ s. not (p s)) db.sessions })

-- A session that is not there is no error.
unfoldable pub delete_session : Bool → String → Write ℕ
unfolding delete_sessions_where
delete_session fails id = delete_sessions_where fails (λ s. s.id == id)

unfoldable pub delete_user_sessions : Bool → String → Write ℕ
unfolding delete_sessions_where
delete_user_sessions fails user_id = delete_sessions_where fails (λ s. s.user_id == user_id)

unfoldable pub delete_expired_sessions : Bool → Time → Write ℕ
unfolding delete_sessions_where format_time
delete_expired_sessions fails now =
    delete_sessions_where fails (λ s. leb s.expires_at (format_time now))
