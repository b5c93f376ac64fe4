-- ===== src/Api/Sharing.antt =====
-- internal/api/grants.go with internal/store and internal/authz: what a grant lets its user see.
use hookwatch.Api.Answer.{Refusal, Server}
use hookwatch.Api.GrantHandlers.{
  CreateGrant, GrantCall, create_grant_managed, delete_grant_managed, grant_created, grant_deleted,
  grant_role, grant_to, handle_create_grant, handle_delete_grant, new_grant,
}
use hookwatch.Authz.{can_access_token, view}
use hookwatch.Authz.Policy.{Granted, Permits-can_access_token}
use hookwatch.Models.{HookGrant, Token, User}
use hookwatch.Prelude.{
  All, All-append, All-find, All-select, Bool, Bool-cases, List, Option, Option-cases, Result,
  String, [], any, arith, eq_iff, err, false, find, holds, holds-path, inl, inr, nat_eq, none, not,
  ok, refl, some, string_eq, subst, sym, true, ◌&&◌, ◌==◌, ◌||◌, ◌∷◌, ◌≡◌, ◌⊎◌,
}
use hookwatch.Store.Db.{Db, StoreError, not_found, token_exists, unique_violation, user_exists}
use hookwatch.Store.Grants.{
  create_hook_grant, delete_grants_where, delete_hook_grant_by_token_and_user, grant_row,
}
use hookwatch.Store.PeopleLists.{grant_of, is_shared_with}

-- Every stored grant has one of the two roles that the policy knows.
abbrev pub HasRole : HookGrant → Type 0
HasRole g = (g.role == "viewer" || g.role == "editor") ≡ true

abbrev pub AllRoles : Db → Type 0
AllRoles db = All HasRole db.hook_grants

create_hook_grant-AllRoles :
    (fails : Bool) (g : HookGrant) (db : Db)
    → HasRole g
    → AllRoles db
    → AllRoles (create_hook_grant fails g db).1
unfolding create_hook_grant grant_row
create_hook_grant-AllRoles true g db r h = h
create_hook_grant-AllRoles false g db r h =
    elim (Bool-cases (
      any (λ o. o.id == g.id || (o.token_id == g.token_id && o.user_id == g.user_id))
        db.hook_grants)) [
          | inl e ↦ rw e h
          | inr e ↦
              elim (Bool-cases (
                token_exists g.token_id db
                && user_exists g.user_id db
                && user_exists g.granted_by db)) [
                  | inl t ↦ rw (e, t) (All-append HasRole db.hook_grants _ h (r, tt))
                  | inr t ↦ rw (e, t) h
                ]
        ]

grant_created-db :
    (g : HookGrant) (r : Result StoreError (Unit {0}) × Db) → (grant_created g r).1 ≡ r.1
unfolding grant_created
grant_created-db g (err unique_violation, db) = refl
grant_created-db g (err _, db) = refl
grant_created-db g (ok u, db) = refl

grant_to-AllRoles :
    (call : GrantCall) (t : Token) (role : String) (r : Result Refusal String) (db : Db)
    → (role == "viewer" || role == "editor") ≡ true
    → AllRoles db
    → AllRoles (grant_to call t role r db).1
unfolding grant_to new_grant
grant_to-AllRoles call t role (err e) db k h = h
grant_to-AllRoles call t role (ok id) db k h = elim (Bool-cases (holds t.owner_id id)) [
  | inl o ↦ rw o h
  | inr o ↦ rw o (
      subst AllRoles
        (sym (grant_created-db _ (create_hook_grant call.write_fails (new_grant call id role) db)))
        (create_hook_grant-AllRoles call.write_fails (new_grant call id role) db k h))
]

managed-AllRoles :
    (call : GrantCall) (req : Option CreateGrant) (r : Result Refusal Token) (db : Db)
    → AllRoles db
    → AllRoles (create_grant_managed call req r db).1
unfolding create_grant_managed
managed-AllRoles call req (err e) db h = h
managed-AllRoles call none (ok t) db h = h
managed-AllRoles call (some req) (ok t) db h =
    elim (Bool-cases
      (not (grant_role req.role == "viewer") && not (grant_role req.role == "editor"))) [
        | inl e ↦ rw e h
        | inr e ↦ rw e (grant_to-AllRoles call t (grant_role req.role) _ db (ground (arith, e)) h)
      ]

-- One request of the handlers that write grants.
pub data GrantRequest : Type 0 where
  gives : GrantCall → Option CreateGrant → GrantRequest
  takes : GrantCall → String → GrantRequest

abbrev pub serve_grants : Server → List GrantRequest → Db → Db
serve_grants server [] db = db
serve_grants server (gives call req ∷ rs) db =
    serve_grants server rs (handle_create_grant server call req db).1
serve_grants server (takes call user_id ∷ rs) db =
    serve_grants server rs (handle_delete_grant server call user_id db).1

grant_deleted-db : (r : Result StoreError (Unit {0}) × Db) → (grant_deleted r).1 ≡ r.1
unfolding grant_deleted
grant_deleted-db (err not_found, db) = refl
grant_deleted-db (err _, db) = refl
grant_deleted-db (ok u, db) = refl

delete_grants-AllRoles :
    (fails : Bool) (p : HookGrant → Bool) (db : Db)
    → AllRoles db
    → AllRoles (delete_grants_where fails p db).1
unfolding delete_grants_where
delete_grants-AllRoles true p db h = h
delete_grants-AllRoles false p db h = elim (Bool-cases (any p db.hook_grants)) [
  | inl e ↦ rw e (All-select HasRole (λ g. not (p g)) db.hook_grants h)
  | inr e ↦ rw e h
]

taken-AllRoles :
    (call : GrantCall) (user_id : String) (r : Result Refusal Token) (db : Db)
    → AllRoles db
    → AllRoles (delete_grant_managed call user_id r db).1
unfolding delete_grant_managed delete_hook_grant_by_token_and_user
taken-AllRoles call user_id (err e) db h = h
taken-AllRoles call user_id (ok t) db h =
    subst AllRoles
      (sym (
        grant_deleted-db
          (delete_hook_grant_by_token_and_user call.write_fails call.token_id user_id db)))
      (delete_grants-AllRoles call.write_fails
        (λ g. g.token_id == call.token_id && g.user_id == user_id) db h)

pub serve_grants-AllRoles :
    (server : Server) (rs : List GrantRequest) (db : Db)
    → AllRoles db
    → AllRoles (serve_grants server rs db)
unfolding handle_create_grant handle_delete_grant
serve_grants-AllRoles server [] db h = h
serve_grants-AllRoles server (gives call req ∷ rs) db h =
    serve_grants-AllRoles server rs _ (managed-AllRoles call req _ db h)
serve_grants-AllRoles server (takes call user_id ∷ rs) db h =
    serve_grants-AllRoles server rs _ (taken-AllRoles call user_id _ db h)

-- A hook that is shared with a user is the user's own, or there is a grant that covers viewing.
shared_standing :
    (user : User) (token : Token) (db : Db)
    → AllRoles db
    → is_shared_with user.id db.hook_grants token ≡ true
    → (user.global_role ≡ "admin") ⊎ (token.owner_id ≡ some user.id) ⊎ Granted user token view db
unfolding is_shared_with grant_of
shared_standing user token db h s = elim (Bool-cases (holds token.owner_id user.id)) [
  | inl o ↦ inr (inl (holds-path token.owner_id user.id o))
  | inr o ↦
      elim (Option-cases
        (find (λ g. g.token_id == token.uuid && g.user_id == user.id) db.hook_grants)) [
          | inl e ↦ ground (arith, rw (o, e) at s)
          | inr (g, e) ↦ inr (
              inr (
                g,
                e,
                one_of g (
                    All-find HasRole (λ g. g.token_id == token.uuid && g.user_id == user.id) g
                      db.hook_grants h e),
              ))
        ]
]
  where
    one_of : (g : HookGrant) → HasRole g → (g.role ≡ "viewer") ⊎ (g.role ≡ "editor")
    one_of g r = elim (Bool-cases (g.role == "viewer")) [
      | inl v ↦ inl ((eq_iff g.role "viewer").0 v)
      | inr v ↦ inr ((eq_iff g.role "editor").0 (ground (arith, r, v)))
    ]

-- After any sequence of requests that give and take grants, with any failures, starting where every grant
-- has one of the two roles, the policy lets a user view every hook that the list for the user may
-- have, if the query for the grant succeeds.
pub is_shared_with-can_access_token :
    (server : Server) (rs : List GrantRequest) (db : Db) (user : User) (token : Token)
    (mode : String)
    → AllRoles db
    → is_shared_with user.id (serve_grants server rs db).hook_grants token ≡ true
    → can_access_token false mode (some user) token view (serve_grants server rs db) ≡ true
is_shared_with-can_access_token server rs db user token mode h s =
    Permits-can_access_token mode (some user) token view (serve_grants server rs db) (
      inr (
        inr (
          user,
          refl,
          shared_standing user token (serve_grants server rs db)
              (serve_grants-AllRoles server rs db h) s,
        )))
