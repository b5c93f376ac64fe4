-- ===== src/Auth/Arrival.antt =====
-- internal/auth/auth.go: a new account can log in, and its session is valid until it expires.
use hookwatch.Auth.{
  Login, new_session, open_session, opened, session_duration, session_user, validate_session,
  with_user,
}
use hookwatch.Auth.Password.{
  RegisterFaults, Registration, created_user, first_role, free_email, login_found, login_password,
  may_register, password_right, password_user, register, register_free, register_hashed,
  register_open,
}
use hookwatch.Models.{Session, Time, User}
use hookwatch.Prelude.{
  Bool, List, Option, Result, String, [], any, any-append, any_and, ap, arith, byte_len, eq_refl,
  false, find, find-any, find-append_fresh, has_row, length, ltb, lt→ltb, nat_eq, none, not, ok,
  refl, some, string_eq, true, ◌&&◌, ◌++◌, ◌<◌, ◌==◌, ◌∙◌, ◌∷◌, ◌≡◌, ◌≤◌,
}
use hookwatch.Store.Config.{add_duration}
use hookwatch.Store.Db.{Db, StoreError, format_time}
use hookwatch.Store.Sessions.{create_session, get_session, session_row}
use hookwatch.Store.Users.{
  conflicts, count_users, create_user, get_user, get_user_by_email, same_key, user_row,
}

abbrev pub no_faults : RegisterFaults
no_faults = record { first_count = false; by_email = false; second_count = false; create = false }

-- The user's identifier and address are new.
abbrev pub is_new_user : String → String → Db → Bool
is_new_user id email db =
    not (any (λ u. u.id == id) db.users) && not (any (λ u. u.email == email) db.users)

same_key-none : (o : Option String) → same_key o none ≡ false
same_key-none none = refl
same_key-none (some a) = refl

no_conflict :
    (now : Time) (id : String) (r : Registration) (hash role : String) (users : List User)
    → any (λ u. u.id == id) users ≡ false
    → any (λ u. u.email == r.email) users ≡ false
    → any (conflicts (password_user now id r hash role)) users ≡ false
unfolding conflicts password_user
no_conflict now id r hash role [] h k = refl
no_conflict now id r hash role (u ∷ us) h k =
    ground (arith, same_key-none u.oidc_provider, no_conflict now id r hash role us)

-- The tables after a registration that succeeds, and after a login of the new user.
abbrev with_user_row : User → Db → Db
with_user_row user db = record db { users = db.users ++ user_row user ∷ [] }

abbrev with_session_row : Session → Db → Db
with_session_row s db = record db { sessions = db.sessions ++ session_row s ∷ [] }

register_new :
    (hash_password : String → Option String) (now : Time) (id : String) (r : Registration)
    (hash : String) (db : Db)
    → is_new_user id r.email db ≡ true
    → 8 ≤ byte_len r.password
    → hash_password r.password ≡ some hash
    → let user = password_user now id r hash (first_role (length db.users)) in
      register hash_password true no_faults now id r db ≡ (ok user, with_user_row user db)
unfolding register may_register register_open register_free free_email get_user_by_email
    register_hashed count_users created_user create_user
register_new hash_password now id r hash db unused long hashed =
    let id_new : any (λ u. u.id == id) db.users ≡ false = ground (arith, unused) in
    let email_new : any (λ u. u.email == r.email) db.users ≡ false = ground (arith, unused) in
    let short : ltb (byte_len r.password) 8 ≡ false = ground (arith, long) in
    rw
      (
        find-any (λ u. u.email == r.email) db.users email_new,
        hashed,
        no_conflict now id r hash (first_role (length db.users)) db.users id_new email_new,
        short,
      )
      refl

right_of :
    (compare_password : String → String → Bool) (o : Option String) (hash password : String)
    → o ≡ some hash
    → compare_password hash password ≡ true
    → password_right compare_password o password ≡ true
unfolding password_right
right_of compare_password o hash password e right = rw e right

login_new :
    (compare_password : String → String → Bool) (login : Login) (user : User)
    (password hash : String) (db : Db)
    → is_new_user user.id user.email db ≡ true
    → has_row (λ s. s.id) login.session_id db.sessions ≡ false
    → user.password_hash ≡ some hash
    → compare_password hash password ≡ true
    → login_password compare_password false false login user.email password (with_user_row user db)
      ≡ (
        ok (user_row user, new_session login user.id),
        with_session_row (new_session login user.id) (with_user_row user db),
      )
unfolding login_password login_found get_user_by_email user_row with_user open_session opened
    create_session new_session
login_new compare_password login user password hash db unused fresh hashed right =
    let email_new : any (λ u. u.email == user.email) db.users ≡ false = ground (arith, unused) in
    let found : find (λ u. u.email == user.email) (db.users ++ user_row user ∷ [])
        ≡ some (user_row user) =
      find-append_fresh (λ u. u.email == user.email) db.users (user_row user ∷ []) email_new
      ∙ rw (eq_refl user.email) refl in
    let known : any (λ u. u.id == user.id) (db.users ++ user_row user ∷ []) ≡ true =
      any-append (λ u. u.id == user.id) db.users (user_row user ∷ [])
      ∙ ground (arith, eq_refl user.id) in
    let right_hash : password_right compare_password user.password_hash password ≡ true =
      right_of compare_password user.password_hash hash password hashed right in
    rw (found, right_hash, fresh, known) refl

validate_new :
    (login : Login) (user : User) (now : Time) (db : Db)
    → is_new_user user.id user.email db ≡ true
    → has_row (λ s. s.id) login.session_id db.sessions ≡ false
    → format_time now < format_time (add_duration login.now session_duration)
    → validate_session false false now login.session_id
        (with_session_row (new_session login user.id) (with_user_row user db))
      ≡ ok (user_row user)
unfolding validate_session get_session session_user get_user user_row new_session session_row
validate_new login user now db unused fresh live =
    let id_new : any (λ u. u.id == user.id) db.users ≡ false = ground (arith, unused) in
    let s : Session = session_row (new_session login user.id) in
    let not_there : any (λ s. s.id == login.session_id && ltb (format_time now) s.expires_at)
          db.sessions
        ≡ false =
      any_and (λ s. s.id == login.session_id) (λ s. ltb (format_time now) s.expires_at) db.sessions
        fresh in
    let opened : find (λ s. s.id == login.session_id && ltb (format_time now) s.expires_at)
          (db.sessions ++ s ∷ [])
        ≡ some s =
      find-append_fresh (λ s. s.id == login.session_id && ltb (format_time now) s.expires_at)
        db.sessions (s ∷ []) not_there
      ∙ rw (eq_refl login.session_id, lt→ltb _ _ live) refl in
    let found : find (λ u. u.id == user.id) (db.users ++ user_row user ∷ [])
        ≡ some (user_row user) =
      find-append_fresh (λ u. u.id == user.id) db.users (user_row user ∷ []) id_new
      ∙ rw (eq_refl user.id) refl in
    rw (opened, found) refl

-- A user registers, logs in with the same password, and comes back with the session.
abbrev pub arrive :
    (String → Option String)
    → (String → String → Bool)
    → Time
    → String
    → Registration
    → Login
    → Time
    → Db
    → Result StoreError User
arrive hash_password compare_password registered id r login now db =
    let (account, db₁) = register hash_password true no_faults registered id r db in
    let (welcome, db₂) = login_password compare_password false false login r.email r.password db₁ in
    validate_session false false now login.session_id db₂

-- While registration is open and no call of the store fails, whoever registers with a new address
-- and a password of at least 8 bytes can log in with it, and the session then gives the user of
-- the registration as long as it has not expired, seven days after the login in whole seconds. The
-- fresh identifiers are new, and bcrypt hashes the password and recognises its own hash.
pub arrive_lem :
    (hash_password : String → Option String) (compare_password : String → String → Bool)
    (registered : Time) (id : String) (r : Registration) (hash : String) (login : Login)
    (now : Time) (db : Db)
    → is_new_user id r.email db ≡ true
    → 8 ≤ byte_len r.password
    → hash_password r.password ≡ some hash
    → compare_password hash r.password ≡ true
    → has_row (λ s. s.id) login.session_id db.sessions ≡ false
    → format_time now < format_time (add_duration login.now session_duration)
    → arrive hash_password compare_password registered id r login now db
      ≡ ok (user_row (password_user registered id r hash (first_role (length db.users))))
unfolding password_user
arrive_lem hash_password compare_password registered id r hash login now db unused long hashed right
      fresh live =
    let user : User = password_user registered id r hash (first_role (length db.users)) in
    ap
      (λ p.
        validate_session false false now login.session_id
          (login_password compare_password false false login r.email r.password p.1).1)
      (register_new hash_password registered id r hash db unused long hashed)
    ∙ ap (λ p. validate_session false false now login.session_id p.1)
        (login_new compare_password login user r.password hash db unused fresh refl right)
    ∙ validate_new login user now db unused fresh live
