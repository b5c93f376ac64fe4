-- ===== src/Auth/Password.antt =====
-- internal/auth/auth.go: accounts with a password. `hash_password` is bcrypt's
-- GenerateFromPassword, `none` for an error, and `compare_password` its CompareHashAndPassword.
use hookwatch.Auth.{
  AuthError, Login, email_taken, hash_failed, invalid_credentials, open_session,
  registration_closed, store_error, weak_password, with_user,
}
use hookwatch.Models.{Session, Time, User}
use hookwatch.Prelude.{
  Bool, Option, Result, String, byte_len, err, false, if◌then◌else◌, ltb, none, ok, some, suc, true,
  zero, ℕ,
}
use hookwatch.Store.Db.{Db, StoreError, not_found}
use hookwatch.Store.Users.{count_users, create_user, get_user_by_email}

-- Which of the store's calls fail in Register.
pub record RegisterFaults : Type 0 where
  pub first_count : Bool
  pub by_email : Bool
  pub second_count : Bool
  pub create : Bool

pub record Registration : Type 0 where
  pub email : String
  pub display_name : String
  pub password : String

-- While registration is closed, only the first user may register.
unfoldable pub may_register : Bool → Result StoreError ℕ → Result AuthError (Unit {0})
may_register true n = ok tt
may_register false (err e) = err (store_error e)
may_register false (ok zero) = ok tt
may_register false (ok (suc n)) = err registration_closed

-- An address is free if the query for it finds no user.
unfoldable pub free_email : Result StoreError User → Result AuthError (Unit {0})
free_email (ok user) = err email_taken
free_email (err not_found) = ok tt
free_email (err e) = err (store_error e)

unfoldable pub first_role : ℕ → String
first_role zero = "admin"
first_role (suc n) = "user"

unfoldable pub password_user : Time → String → Registration → String → String → User
password_user now id r hash role = record {
  id = id;
  email = r.email;
  display_name = r.display_name;
  password_hash = some hash;
  oidc_provider = none;
  oidc_subject = none;
  global_role = role;
  created_at = now;
  updated_at = now;
}

unfoldable pub created_user : User → Result StoreError (Unit {0}) × Db → Result AuthError User × Db
created_user user (ok u, db) = (ok user, db)
created_user user (err e, db) = (err (store_error e), db)

unfoldable pub register_hashed :
    RegisterFaults
    → Time
    → String
    → Registration
    → Option String
    → Result StoreError ℕ
    → Db
    → Result AuthError User × Db
unfolding first_role password_user created_user
register_hashed faults now id r none n db = (err hash_failed, db)
register_hashed faults now id r (some hash) (err e) db = (err (store_error e), db)
register_hashed faults now id r (some hash) (ok n) db =
    let user = password_user now id r hash (first_role n) in
    created_user user (create_user faults.create user db)

unfoldable pub register_free :
    (String → Option String)
    → RegisterFaults
    → Time
    → String
    → Registration
    → Result AuthError (Unit {0})
    → Db
    → Result AuthError User × Db
unfolding register_hashed
register_free hash_password faults now id r (err e) db = (err e, db)
register_free hash_password faults now id r (ok u) db =
    register_hashed faults now id r (hash_password r.password) (count_users faults.second_count db)
      db

unfoldable pub register_open :
    (String → Option String)
    → RegisterFaults
    → Time
    → String
    → Registration
    → Result AuthError (Unit {0})
    → Db
    → Result AuthError User × Db
unfolding register_free free_email byte_len
register_open hash_password faults now id r (err e) db = (err e, db)
register_open hash_password faults now id r (ok u) db =
    if ltb (byte_len r.password) 8
    then (err weak_password, db)
    else register_free hash_password faults now id r
        (free_email (get_user_by_email faults.by_email r.email db)) db

unfoldable pub register :
    (String → Option String)
    → Bool
    → RegisterFaults
    → Time
    → String
    → Registration
    → Db
    → Result AuthError User × Db
unfolding register_open may_register
register hash_password allow_registration faults now id r db =
    register_open hash_password faults now id r
      (may_register allow_registration (count_users faults.first_count db)) db

-- The password of a user without one is never right.
unfoldable pub password_right : (String → String → Bool) → Option String → String → Bool
password_right compare_password none password = false
password_right compare_password (some hash) password = compare_password hash password

unfoldable pub login_found :
    (String → String → Bool)
    → Bool
    → Login
    → String
    → Result StoreError User
    → Db
    → Result AuthError (User × Session) × Db
unfolding password_right
login_found compare_password fails login password (err not_found) db = (err invalid_credentials, db)
login_found compare_password fails login password (err e) db = (err (store_error e), db)
login_found compare_password fails login password (ok user) db =
    if password_right compare_password user.password_hash password
    then with_user user (open_session fails login user.id db)
    else (err invalid_credentials, db)

-- Login: `query_fails` is a failure of GetUserByEmail, `fails` one of CreateSession.
unfoldable pub login_password :
    (String → String → Bool)
    → Bool
    → Bool
    → Login
    → String
    → String
    → Db
    → Result AuthError (User × Session) × Db
unfolding login_found
login_password compare_password query_fails fails login email password db =
    login_found compare_password fails login password (get_user_by_email query_fails email db) db
