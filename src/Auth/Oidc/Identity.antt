-- ===== src/Auth/Oidc/Identity.antt =====
-- internal/auth/oidc.go: whom a completed login of the identity provider acts for.
use Prim.Native.Char.{code}
use hookwatch.Auth.{AuthError, Login, new_session, open_session, opened, with_user}
use hookwatch.Auth.Oidc.{
  Claims, OidcFaults, Provider, complete_claims, complete_oidc_auth, id_token_claims,
  normalize_oidc_issuer, oidc_user, provide_user, resolve_user, resolved, unless_known,
  unless_taken,
}
use hookwatch.Auth.Password.{created_user}
use hookwatch.Models.{Session, Time, User}
use hookwatch.Prelude.{
  Bool, Bool-cases, List, Option, Option-cases, Result, String, [], any, any-find, ap, arith,
  eq_iff, err, false, find, find-true, holds, holds-path, inl, inr, length, nat_eq, none, ok, refl,
  some, string_eq, subst, sym, trim_space, true, ◌&&◌, ◌++◌, ◌==◌, ◌∙◌, ◌∷◌, ◌≡◌, ◌⊎◌,
}
use hookwatch.Store.Db.{Db, user_exists}
use hookwatch.Store.Sessions.{create_session}
use hookwatch.Store.Users.{
  conflicts, count_users, create_user, get_user_by_email, get_user_by_oidc, user_row,
}

-- The account belongs to this subject of this issuer.
abbrev pub IsLinked : String → String → User → Type 0
IsLinked issuer subject user =
    (user.oidc_provider ≡ some issuer) × (user.oidc_subject ≡ some subject)

-- The accounts stay, or one is added whose address was free.
abbrev pub KeepsAccounts : User → List User → List User → Type 0
KeepsAccounts user before after =
    (after ≡ before)
    ⊎ ((after ≡ before ++ user_row user ∷ []) × (any (λ u. u.email == user.email) before ≡ false))

abbrev Resolved : String → Claims → Db → Result AuthError User × Db → Type 0
Resolved issuer claims db (err e, db') = db' ≡ db
Resolved issuer claims db (ok user, db') =
    (db'.sessions ≡ db.sessions)
    × IsLinked issuer (trim_space claims.subject) user
    × KeepsAccounts user db.users db'.users

-- A login that succeeds was given claims with the expected nonce; the session is one of the
-- account that belongs to their subject. One that fails opens no session.
abbrev pub Completed :
    String → String → Option Claims → Db → Result AuthError (User × Session) × Db → Type 0
Completed issuer expected_nonce claims db (err e, db') = db'.sessions ≡ db.sessions
Completed issuer expected_nonce claims db (ok (user, session), db') =
    (c : Claims) × (claims ≡ some c)
    × (trim_space c.nonce ≡ trim_space expected_nonce)
    × IsLinked issuer (trim_space c.subject) user
    × KeepsAccounts user db.users db'.users
    × (session.user_id ≡ user.id)

module _ (faults : OidcFaults) (issuer : String) (now : Time) (id : String) (claims : Claims)
    (db : Db) where
  abbrev name_of : String
  name_of = trim_space claims.name

  provide_user-Resolved :
      any (λ u. u.email == trim_space claims.email) db.users ≡ false
      → Resolved issuer claims db (
          provide_user faults.create issuer now id
            (trim_space claims.subject)
            (trim_space claims.email)
            name_of
            (count_users faults.count db)
            db)
  unfolding provide_user count_users created_user create_user oidc_user
  provide_user-Resolved free = elim (Bool-cases faults.count) [
    | inl t ↦ rw t refl
    | inr t ↦ elim (Bool-cases faults.create) [
      | inl c ↦ rw (t, c) refl
      | inr c ↦
          elim (Bool-cases (
            any
              (conflicts (
                oidc_user issuer now id (trim_space claims.subject) (trim_space claims.email)
                  name_of (length db.users)))
              db.users)) [
                | inl k ↦ rw (t, c, k) refl
                | inr k ↦ rw (t, c, k) (refl, (refl, refl), inr (refl, free))
              ]
    ]
  ]

  unless_taken-Resolved : Resolved issuer claims db (
      unless_taken faults issuer now id
        (trim_space claims.subject)
        (trim_space claims.email)
        name_of
        (get_user_by_email faults.by_email (trim_space claims.email) db)
        db)
  unfolding unless_taken get_user_by_email
  unless_taken-Resolved = elim (Bool-cases faults.by_email) [
    | inl t ↦ rw t refl
    | inr t ↦ elim (Option-cases (find (λ u. u.email == trim_space claims.email) db.users)) [
      | inl e ↦
          rw (t, e)
            (provide_user-Resolved (any-find (λ u. u.email == trim_space claims.email) db.users e))
      | inr (u, e) ↦ rw (t, e) refl
    ]
  ]

  unless_known-Resolved : Resolved issuer claims db (
      unless_known faults issuer now id
        (trim_space claims.subject)
        (trim_space claims.email)
        name_of
        (get_user_by_oidc faults.by_oidc issuer (trim_space claims.subject) db)
        db)
  unfolding unless_known get_user_by_oidc
  unless_known-Resolved = elim (Bool-cases faults.by_oidc) [
    | inl t ↦ rw t refl
    | inr t ↦
        elim (Option-cases (
          find
            (λ u. holds u.oidc_provider issuer && holds u.oidc_subject (trim_space claims.subject))
            db.users)) [
              | inl e ↦ rw (t, e) unless_taken-Resolved
              | inr (u, e) ↦
                  let both : (holds u.oidc_provider issuer
                        && holds u.oidc_subject (trim_space claims.subject))
                      ≡ true =
                    find-true
                      (λ u.
                        holds u.oidc_provider issuer
                        && holds u.oidc_subject (trim_space claims.subject))
                      db.users u e in
                  rw (t, e)
                    (
                      refl,
                      (
                        holds-path u.oidc_provider issuer (ground (arith, both)),
                        holds-path u.oidc_subject (trim_space claims.subject)
                            (ground (arith, both)),
                      ),
                      inl refl,
                    )
            ]
  ]

  resolve_user-Resolved : Resolved issuer claims db (resolve_user faults issuer now id claims db)
  unfolding resolve_user
  resolve_user-Resolved = elim (Bool-cases (trim_space claims.subject == "")) [
    | inl t ↦ rw t refl
    | inr t ↦ elim (Bool-cases (trim_space claims.email == "")) [
      | inl e ↦ rw (t, e) refl
      | inr e ↦ rw (t, e) unless_known-Resolved
    ]
  ]

-- A session that is opened is one of the user, and the accounts stay.
OpensFor : User → Db → Result AuthError (User × Session) × Db → Type 0
OpensFor user db (err e, db') = db'.sessions ≡ db.sessions
OpensFor user db (ok (u, session), db') =
    (u ≡ user) × (session.user_id ≡ user.id) × (db'.users ≡ db.users)

open_session-OpensFor :
    (fails : Bool) (login : Login) (user : User) (db : Db)
    → OpensFor user db (with_user user (open_session fails login user.id db))
unfolding OpensFor with_user open_session opened create_session new_session
open_session-OpensFor true login user db = refl
open_session-OpensFor false login user db =
    elim (Bool-cases (any (λ s. s.id == login.session_id) db.sessions)) [
      | inl t ↦ rw t refl
      | inr t ↦ elim (Bool-cases (user_exists user.id db)) [
        | inl e ↦ rw (t, e) (refl, refl, refl)
        | inr e ↦ rw (t, e) refl
      ]
    ]

from_session :
    (issuer expected_nonce : String) (c : Claims) (user : User) (db db' : Db)
    (r : Result AuthError (User × Session) × Db)
    → trim_space c.nonce ≡ trim_space expected_nonce
    → Resolved issuer c db (ok user, db')
    → OpensFor user db' r
    → Completed issuer expected_nonce (some c) db r
unfolding OpensFor
from_session issuer expected_nonce c user db db' (err e, db'') n h o = o ∙ h.0
from_session issuer expected_nonce c user db db' (ok (u, session), db'') n h o = (
  c,
  refl,
  n,
  subst (IsLinked issuer (trim_space c.subject)) (sym o.0) h.1,
  subst (λ us. KeepsAccounts u db.users us) (sym o.2)
      (subst (λ v. KeepsAccounts v db.users db'.users) (sym o.0) h.2),
  o.1 ∙ ap (λ v. v.id) (sym o.0),
)

from_user :
    (fails : Bool) (login : Login) (issuer expected_nonce : String) (c : Claims) (db : Db)
    (r : Result AuthError User × Db)
    → trim_space c.nonce ≡ trim_space expected_nonce
    → Resolved issuer c db r
    → Completed issuer expected_nonce (some c) db (resolved fails login r)
unfolding resolved
from_user fails login issuer expected_nonce c db (err e, db') n h = ap (λ d. d.sessions) h
from_user fails login issuer expected_nonce c db (ok user, db') n h =
    from_session issuer expected_nonce c user db db' _ n h
      (open_session-OpensFor fails login user db')

complete_claims-Completed :
    (faults : OidcFaults) (issuer id : String) (login : Login) (expected_nonce : String)
    (claims : Option Claims) (db : Db)
    → Completed issuer expected_nonce claims db
        (complete_claims faults issuer id login expected_nonce claims db)
unfolding complete_claims
complete_claims-Completed faults issuer id login expected_nonce none db = refl
complete_claims-Completed faults issuer id login expected_nonce (some c) db =
    elim (Bool-cases (trim_space c.nonce == trim_space expected_nonce)) [
      | inl t ↦ rw t (
          from_user faults.session login issuer expected_nonce c db _
            ((eq_iff (trim_space c.nonce) (trim_space expected_nonce)).0 t)
            (resolve_user-Resolved faults issuer login.now id c db))
      | inr t ↦ rw t refl
    ]

-- Whatever the identity provider answers and whichever call of the store fails: a login that
-- completes was given an ID token that decodes to claims with the expected nonce; its session is of
-- the account that belongs to the issuer and to the subject of these claims; and the accounts stay
-- as they were, or one is added whose address nobody had. A login that fails opens no session.
pub complete_oidc_auth-Completed :
    (provider : Provider) (faults : OidcFaults) (issuer id : String) (login : Login)
    (base_url code expected_nonce : String) (db : Db)
    → Completed issuer expected_nonce
        (id_token_claims provider (provider.exchange (normalize_oidc_issuer base_url) code))
        db
        (complete_oidc_auth provider faults issuer id login base_url code expected_nonce db)
unfolding complete_oidc_auth
complete_oidc_auth-Completed provider faults issuer id login base_url code expected_nonce db =
    complete_claims-Completed faults issuer id login expected_nonce
      (id_token_claims provider (provider.exchange (normalize_oidc_issuer base_url) code)) db
