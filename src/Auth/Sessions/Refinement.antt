-- ===== src/Auth/Sessions/Refinement.antt =====
-- internal/auth/auth.go and internal/store/users.go: the table of sessions implements the map.
use hookwatch.Auth.{
  Login, logout, new_session, open_session, opened, session_user, validate_session,
}
use hookwatch.Auth.Sessions.{
  SessionCall, SessionMap, closes, live_at, map_set, opens, session_replies, spec_replies,
  spec_step, step_sessions, sweeps, user_validated, validates,
}
use hookwatch.Hub.{new}
use hookwatch.Models.{Session, Time}
use hookwatch.Prelude.{
  Bool, Bool-cases, HasUniqueKeys, HasUniqueKeys-append, HasUniqueKeys-select, List, Option, Result,
  String, [], any, ap, arith, eq_iff, err, false, find-append_fresh, find-append_old, has_row,
  if◌then◌else◌, inl, inr, is_some, leb, nat_eq, none, not, ok, refl, retain, row_with,
  row_with-select, row_with_and, select, some, string_eq, sym, true, ◌++◌, ◌==◌, ◌∙◌, ◌∷◌, ◌≡◌, ◌⊎◌,
}
use hookwatch.Store.Db.{Db, StoreError, format_time, or_not_found, user_exists}
use hookwatch.Store.Sessions.{
  create_session, delete_expired_sessions, delete_session, delete_sessions_where, get_session,
  session_row,
}
use hookwatch.Store.Users.{find_user, get_user}

-- The rows are those of the map, with unique identifiers, and the users are the ones given.
abbrev pub Implements : Db → Db → SessionMap → Type 0
Implements db₀ db m =
    HasUniqueKeys (λ s. s.id) db.sessions
    × (db.users ≡ db₀.users)
    × ((i : String) → row_with (λ s. s.id) i db.sessions ≡ m i)

some_row :
    (i : String) (xs : List Session)
    → is_some (row_with (λ s. s.id) i xs) ≡ has_row (λ s. s.id) i xs
some_row i [] = refl
some_row i (x ∷ xs) = ground (arith, some_row i xs)

-- A call answers what the map answers, and leaves rows that implement what it leaves.
abbrev pub Simulated : Db → Db → SessionMap → SessionCall → Type 0
Simulated db₀ db m c =
    ((step_sessions c db).0 ≡ (spec_step c db₀ m).0)
    × Implements db₀ (step_sessions c db).1 (spec_step c db₀ m).1

session_user-users :
    (fails : Bool) (r : Result StoreError Session) (db db' : Db)
    → db.users ≡ db'.users
    → session_user fails r db ≡ session_user fails r db'
unfolding session_user get_user find_user
session_user-users fails (err e) db db' h = refl
session_user-users fails (ok s) db db' h = rw h refl

opened_row :
    (s : Session) (xs : List Session) (m : SessionMap)
    → has_row (λ s. s.id) s.id xs ≡ false
    → ((i : String) → row_with (λ s. s.id) i xs ≡ m i)
    → (i : String) → row_with (λ s. s.id) i (xs ++ s ∷ []) ≡ map_set s.id (some s) m i
opened_row s xs m new rows i = elim (Bool-cases (s.id == i)) [
  | inl e ↦ rw e (
      find-append_fresh (λ r. r.id == i) xs (s ∷ [])
        (ap (λ k. has_row (λ s. s.id) k xs) (sym ((eq_iff s.id i).0 e)) ∙ new)
      ∙ rw e refl)
  | inr e ↦ rw e (find-append_old (λ r. r.id == i) xs s e ∙ rows i)
]

closed_row :
    (id i : String) (o : Option Session)
    → o ≡ none ⊎ (s : Session) × (o ≡ some s) × (s.id ≡ i)
    → retain (λ s. not (s.id == id)) o ≡ (if id == i then none else o)
closed_row id i o (inl e) = rw e (ground arith)
closed_row id i o (inr (s, e, k)) = rw (e, k) (ground (arith, eq_iff i id, eq_iff id i))

row_id :
    (i : String) (xs : List Session)
    → row_with (λ s. s.id) i xs ≡ none
      ⊎ (s : Session) × (row_with (λ s. s.id) i xs ≡ some s) × (s.id ≡ i)
row_id i [] = inl refl
row_id i (x ∷ xs) = elim (Bool-cases (x.id == i)) [
  | inl e ↦ inr (x, rw e refl, (eq_iff x.id i).0 e)
  | inr e ↦ rw e (row_id i xs)
]

live_row :
    (now : Time) (o : Option Session)
    → retain (λ s. not (leb s.expires_at (format_time now))) o ≡ retain (live_at now) o
live_row now none = refl
live_row now (some s) = ground arith

opens_step :
    (db₀ db : Db) (m : SessionMap) (fails : Bool) (login : Login) (user_id : String)
    → Implements db₀ db m
    → Simulated db₀ db m (opens fails login user_id)
unfolding step_sessions open_session opened create_session new_session session_row
opens_step db₀ db m true login user_id h = (refl, h)
opens_step db₀ db m false login user_id (unique, users, rows) =
    elim (Bool-cases (has_row (λ s. s.id) login.session_id db.sessions)) [
      | inl t ↦
          rw (t, sym (rows login.session_id), some_row login.session_id db.sessions, t)
            (refl, (unique, users, rows))
      | inr t ↦ elim (Bool-cases (user_exists user_id db₀)) [
        | inl e ↦
            rw
              (
                t,
                sym (rows login.session_id),
                some_row login.session_id db.sessions,
                t,
                ap (any (λ u. u.id == user_id)) users ∙ e,
                e,
              )
              (
                refl,
                (
                  HasUniqueKeys-append (λ s. s.id) db.sessions
                      (session_row (new_session login user_id)) unique t,
                  users,
                  opened_row (session_row (new_session login user_id)) db.sessions m t rows,
                ),
              )
        | inr e ↦
            rw
              (
                t,
                sym (rows login.session_id),
                some_row login.session_id db.sessions,
                t,
                ap (any (λ u. u.id == user_id)) users ∙ e,
                e,
              )
              (refl, (unique, users, rows))
      ]
    ]

module _ (db₀ db : Db) (m : SessionMap) (h : Implements db₀ db m) where
  filtered :
      (q : Session → Bool) (f : Option Session → Option Session) (i : String)
      → retain q (row_with (λ s. s.id) i db.sessions) ≡ f (row_with (λ s. s.id) i db.sessions)
      → row_with (λ s. s.id) i (select q db.sessions) ≡ f (m i)
  filtered q f i e = row_with-select (λ s. s.id) q i db.sessions h.0 ∙ e ∙ ap f (h.2 i)

  closes_step : (fails : Bool) (id : String) → Simulated db₀ db m (closes fails id)
  unfolding step_sessions logout delete_session delete_sessions_where
  closes_step true id = (refl, h)
  closes_step false id = (
    refl,
    (
      HasUniqueKeys-select (λ s. s.id) (λ s. not (s.id == id)) db.sessions h.0,
      h.1,
      λ i.
          filtered (λ s. not (s.id == id)) (λ o. if id == i then none else o) i
            (closed_row id i (row_with (λ s. s.id) i db.sessions) (row_id i db.sessions)),
    ),
  )

  sweeps_step : (fails : Bool) (now : Time) → Simulated db₀ db m (sweeps fails now)
  unfolding step_sessions delete_expired_sessions delete_sessions_where
  sweeps_step true now = (refl, h)
  sweeps_step false now = (
    refl,
    (
      HasUniqueKeys-select (λ s. s.id) (λ s. not (leb s.expires_at (format_time now))) db.sessions
          h.0,
      h.1,
      λ i.
          filtered (λ s. not (leb s.expires_at (format_time now))) (retain (live_at now)) i
            (live_row now (row_with (λ s. s.id) i db.sessions)),
    ),
  )

  validates_step :
      (fails user_fails : Bool) (now : Time) (id : String)
      → Simulated db₀ db m (validates fails user_fails now id)
  unfolding step_sessions validate_session get_session session_user get_user
  validates_step true user_fails now id = (refl, h)
  validates_step false user_fails now id = (
    ap (λ o. user_validated (session_user user_fails (or_not_found o) db))
          (row_with_and (λ s. s.id) (live_at now) id db.sessions h.0
            ∙ ap (retain (live_at now)) (h.2 id))
        ∙ ap user_validated
            (session_user-users user_fails (or_not_found (retain (live_at now) (m id))) db db₀ h.1),
    h,
  )

step_sessions-Simulated :
    (c : SessionCall) (db₀ db : Db) (m : SessionMap) → Implements db₀ db m → Simulated db₀ db m c
step_sessions-Simulated (opens fails login user_id) db₀ db m h =
    opens_step db₀ db m fails login user_id h
step_sessions-Simulated (closes fails id) db₀ db m h = closes_step db₀ db m h fails id
step_sessions-Simulated (sweeps fails now) db₀ db m h = sweeps_step db₀ db m h fails now
step_sessions-Simulated (validates fails user_fails now id) db₀ db m h =
    validates_step db₀ db m h fails user_fails now id

-- Any sequence of openings, logouts, validations and cleanups, with any failures of the store in it,
-- answers just what the map answers that the table represents at its beginning, if the table has
-- unique identifiers. The identifiers and the times of the calls are arbitrary.
pub session_replies-spec_replies :
    (cs : List SessionCall) (db : Db)
    → HasUniqueKeys (λ s. s.id) db.sessions
    → session_replies cs db ≡ spec_replies cs db (λ i. row_with (λ s. s.id) i db.sessions)
session_replies-spec_replies cs db unique = follow cs db _ (unique, refl, λ i. refl)
  where
    follow :
        (cs : List SessionCall) (db' : Db) (m : SessionMap)
        → Implements db db' m
        → session_replies cs db' ≡ spec_replies cs db m
    follow [] db' m h = refl
    follow (c ∷ cs) db' m h =
        let s = step_sessions-Simulated c db db' m h in
        ap (λ r. r ∷ session_replies cs (step_sessions c db').1) s.0
        ∙ ap (λ rs. (spec_step c db m).0 ∷ rs)
            (follow cs (step_sessions c db').1 (spec_step c db m).1 s.1)
