-- ===== src/Auth/Accounts.antt =====
-- internal/auth/auth.go: what a registration leaves behind, and that the new account can log in.
use hookwatch.Auth.{AuthError}
use hookwatch.Auth.Password.{
  RegisterFaults, Registration, created_user, first_role, free_email, may_register, password_user,
  register, register_free, register_hashed, register_open,
}
use hookwatch.Models.{Time, User}
use hookwatch.Prelude.{
  Bool, Bool-cases, List, Option, Option-cases, Result, String, [], any, any-find, ap, arith,
  byte_len, err, false, find, if◌then◌else◌, inl, inr, is_ok, length, ltb, nat_eq, none, not, ok,
  refl, some, string_eq, suc, true, zero, ℕ, ◌++◌, ◌==◌, ◌∙◌, ◌∷◌, ◌≡◌, ◌≤◌, ◌⊎◌,
}
use hookwatch.Store.Db.{Db}
use hookwatch.Store.Users.{conflicts, count_users, create_user, get_user_by_email, user_row}

-- Nobody with this address.
abbrev pub is_new_email : String → Db → Bool
is_new_email email db = not (any (λ u. u.email == email) db.users)

-- What a registration that succeeds does: it appends one user, with these columns.
abbrev pub IsRegistered : Registration → Db → User → Db → Type 0
IsRegistered r db user db' =
    (db' ≡ record db { users = db.users ++ user_row user ∷ [] })
    × (user.email ≡ r.email)
    × (user.display_name ≡ r.display_name)
    × (is_new_email r.email db ≡ true)
    × (8 ≤ byte_len r.password)
    × (user.global_role ≡ (if length db.users == 0 then "admin" else "user"))

-- What a registration promises: an error leaves the tables as they were.
abbrev pub Promised : Bool → Registration → Db → Result AuthError User × Db → Type 0
Promised allow r db (err e, db') = db' ≡ db
Promised allow r db (ok user, db') = IsRegistered r db user db' × ((allow ≡ true) ⊎ (db.users ≡ []))

from_lookup :
    (fails : Bool) (email : String) (db : Db)
    → is_ok (free_email (get_user_by_email fails email db)) ≡ true
    → is_new_email email db ≡ true
unfolding free_email get_user_by_email
from_lookup true email db h = cc
from_lookup false email db h = elim (Option-cases (find (λ u. u.email == email) db.users)) [
  | inl e ↦ rw (any-find (λ u. u.email == email) db.users e) refl
  | inr (u, e) ↦ ground (arith, rw e at h)
]

first_role_lem : (n : ℕ) → first_role n ≡ (if n == 0 then "admin" else "user")
unfolding first_role
first_role_lem zero = refl
first_role_lem (suc n) = ground arith

created_user-Promised :
    (fails : Bool) (allow : Bool) (r : Registration) (now : Time) (id hash : String) (db : Db)
    → is_new_email r.email db ≡ true
    → 8 ≤ byte_len r.password
    → (allow ≡ true) ⊎ (db.users ≡ [])
    → (n : ℕ) → n ≡ length db.users
    → let user = password_user now id r hash (first_role n) in
      Promised allow r db (created_user user (create_user fails user db))
unfolding created_user create_user password_user
created_user-Promised true allow r now id hash db unused long opening n e = refl
created_user-Promised false allow r now id hash db unused long opening n e =
    elim (Bool-cases (any (conflicts (password_user now id r hash (first_role n))) db.users)) [
      | inl t ↦ rw t refl
      | inr t ↦ rw t (
        (
          refl,
          refl,
          refl,
          unused,
          long,
          first_role_lem n ∙ ap (λ m. if m == 0 then "admin" else "user") e,
        ),
        opening,
      )
    ]

no_rows {ℓ} : {A : Type ℓ} (xs : List A) → 0 ≡ length xs → xs ≡ []
no_rows [] e = refl
no_rows (x ∷ xs) e = ground (arith, e)

register_hashed-Promised :
    (faults : RegisterFaults) (allow : Bool) (r : Registration) (now : Time) (id : String)
    (hash : Option String) (db : Db)
    → is_new_email r.email db ≡ true
    → 8 ≤ byte_len r.password
    → (allow ≡ true) ⊎ (db.users ≡ [])
    → Promised allow r db
        (register_hashed faults now id r hash (count_users faults.second_count db) db)
unfolding register_hashed count_users
register_hashed-Promised faults allow r now id none db unused long opening = refl
register_hashed-Promised faults allow r now id (some hash) db unused long opening =
    elim (Bool-cases faults.second_count) [
      | inl t ↦ rw t refl
      | inr t ↦ rw t (
          created_user-Promised faults.create allow r now id hash db unused long opening
            (length db.users) refl)
    ]

register_free-Promised :
    (hash_password : String → Option String) (faults : RegisterFaults) (allow : Bool)
    (r : Registration) (now : Time) (id : String) (db : Db) (free : Result AuthError (Unit {0}))
    → (is_ok free ≡ true → is_new_email r.email db ≡ true)
    → 8 ≤ byte_len r.password
    → (allow ≡ true) ⊎ (db.users ≡ [])
    → Promised allow r db (register_free hash_password faults now id r free db)
unfolding register_free
register_free-Promised hash_password faults allow r now id db (err e) unused long opening = refl
register_free-Promised hash_password faults allow r now id db (ok u) unused long opening =
    register_hashed-Promised faults allow r now id (hash_password r.password) db (unused refl) long
      opening

register_open-Promised :
    (hash_password : String → Option String) (faults : RegisterFaults) (allow : Bool)
    (r : Registration) (now : Time) (id : String) (db : Db)
    → (allow ≡ true) ⊎ (db.users ≡ [])
    → Promised allow r db (register_open hash_password faults now id r (ok tt) db)
unfolding register_open
register_open-Promised hash_password faults allow r now id db opening =
    elim (Bool-cases (ltb (byte_len r.password) 8)) [
      | inl t ↦ rw t refl
      | inr t ↦ rw t (
          register_free-Promised hash_password faults allow r now id db
            (free_email (get_user_by_email faults.by_email r.email db))
            (from_lookup faults.by_email r.email db) (ground (arith, t)) opening)
    ]

closed-Promised :
    (hash_password : String → Option String) (faults : RegisterFaults) (now : Time) (id : String)
    (r : Registration) (db : Db) (n : ℕ)
    → n ≡ length db.users
    → Promised false r db
        (register_open hash_password faults now id r (may_register false (ok n)) db)
unfolding may_register register_open
closed-Promised hash_password faults now id r db zero e =
    register_open-Promised hash_password faults false r now id db (inr (no_rows db.users e))
closed-Promised hash_password faults now id r db (suc n) e = refl

-- A registration either fails and leaves the tables as they were, or appends just one user, with
-- the address and the name of the registration; then nobody had the address, the password has at
-- least 8 bytes, the role is "admin" if and only if the table was empty, and registration is
-- allowed or the table was empty. This holds whatever bcrypt does and whichever call fails.
pub register-Promised :
    (hash_password : String → Option String) (allow : Bool) (faults : RegisterFaults) (now : Time)
    (id : String) (r : Registration) (db : Db)
    → Promised allow r db (register hash_password allow faults now id r db)
unfolding register may_register count_users register_open
register-Promised hash_password true faults now id r db =
    register_open-Promised hash_password faults true r now id db (inl refl)
register-Promised hash_password false faults now id r db = elim (Bool-cases faults.first_count) [
  | inl t ↦ rw t refl
  | inr t ↦ rw t (closed-Promised hash_password faults now id r db (length db.users) refl)
]
