-- ===== src/Store/Users.antt =====
-- internal/store/users.go: the operations on the table of users.
use hookwatch.Models.{User}
use hookwatch.Prelude.{
  Bool, Option, Result, String, [], any, err, false, find, holds, if◌then◌else◌, length, nat_eq,
  none, not, ok, select, some, string_eq, update_where, ℕ, ◌&&◌, ◌++◌, ◌==◌, ◌||◌, ◌∷◌,
}
use hookwatch.Store.Db.{
  Db, StoreError, Write, driver, foreign_key_violation, format_time, not_found, or_not_found,
  unique_violation, user_exists,
}

unfoldable pub user_row : User → User
unfolding format_time
user_row user = record user {
  created_at = format_time user.created_at;
  updated_at = format_time user.updated_at;
}

-- Two keys that may be NULL are equal: a NULL equals nothing.
abbrev pub same_key : Option String → Option String → Bool
same_key none k = false
same_key (some a) k = holds k a

-- The keys id, email and (oidc_provider, oidc_subject) are unique.
unfoldable pub conflicts : User → User → Bool
conflicts new old =
    old.id == new.id
    || old.email == new.email
    || (same_key old.oidc_provider new.oidc_provider && same_key old.oidc_subject new.oidc_subject)

unfoldable pub create_user : Bool → User → Write (Unit {0})
unfolding conflicts user_row
create_user fails user db =
    if fails
    then (err driver, db)
    else if any (conflicts user) db.users
    then (err unique_violation, db)
    else (ok tt, record db { users = db.users ++ user_row user ∷ [] })

unfoldable pub find_user : Bool → (User → Bool) → Db → Result StoreError User
find_user fails p db = if fails then err driver else or_not_found (find p db.users)

unfoldable pub get_user : Bool → String → Db → Result StoreError User
unfolding find_user
get_user fails id = find_user fails (λ u. u.id == id)

unfoldable pub get_user_by_email : Bool → String → Db → Result StoreError User
unfolding find_user
get_user_by_email fails email = find_user fails (λ u. u.email == email)

unfoldable pub get_user_by_oidc : Bool → String → String → Db → Result StoreError User
unfolding find_user
get_user_by_oidc fails provider subject =
    find_user fails (λ u. holds u.oidc_provider provider && holds u.oidc_subject subject)

unfoldable pub count_users : Bool → Db → Result StoreError ℕ
count_users fails db = if fails then err driver else ok (length db.users)

-- UPDATE users: the identity at the provider and the time of creation stay.
unfoldable pub updated_user : User → User → User
unfolding format_time
updated_user user row = record row {
  email = user.email;
  display_name = user.display_name;
  password_hash = user.password_hash;
  global_role = user.global_role;
  updated_at = format_time user.updated_at;
}

unfoldable pub update_user : Bool → User → Write (Unit {0})
unfolding updated_user
update_user fails user db =
    if fails
    then (err driver, db)
    else if user_exists user.id db
    then if any (λ u. not (u.id == user.id) && u.email == user.email) db.users
      then (err unique_violation, db)
      else (
        ok tt,
        record db { users = update_where (λ row. row.id == user.id) (updated_user user) db.users },
      )
    else (err not_found, db)

-- DELETE FROM users WHERE id: sessions and grants of the user go, tokens lose their owner.
unfoldable pub remove_user : String → Db → Db
remove_user id db = record db {
  users = select (λ u. not (u.id == id)) db.users;
  sessions = select (λ s. not (s.user_id == id)) db.sessions;
  tokens = update_where (λ t. holds t.owner_id id) (λ t. record t { owner_id = none }) db.tokens;
  hook_grants = select (λ g. not (g.user_id == id)) db.hook_grants;
}

-- The reference `granted_by` has no ON DELETE clause, so a grant that stays and was given by the
-- user makes the whole statement fail.
unfoldable pub delete_user : Bool → String → Write (Unit {0})
unfolding remove_user
delete_user fails id db =
    if fails
    then (err driver, db)
    else if user_exists id db
    then if any (λ g. g.granted_by == id && not (g.user_id == id)) db.hook_grants
      then (err foreign_key_violation, db)
      else (ok tt, remove_user id db)
    else (err not_found, db)
