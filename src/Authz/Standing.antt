-- ===== src/Authz/Standing.antt =====
-- internal/authz/authz.go: how the permissions on one hook relate to one another.
use hookwatch.Authz.{
  HookAction, can_access_token, can_manage_grants, delete, edit, grant, unlisted, view,
}
use hookwatch.Models.{Token, User}
use hookwatch.Prelude.{
  Bool, List, Option, Option-cases, String, [], all, arith, false, find, inl, inr, nat_eq, none,
  refl, some, string_eq, sym, true, ◌&&◌, ◌==◌, ◌∙◌, ◌∷◌, ◌≡◌,
}
use hookwatch.Store.Db.{Db}
use hookwatch.Store.Grants.{get_hook_grant}

-- Deleting a hook and managing its grants ask for the same standing, which is owner or admin: no
-- grant gives it, so neither check depends on the grants or on the query for them.
can_manage_grants-can_access_token :
    (fails : Bool) (auth_mode : String) (user : Option User) (token : Token) (db : Db)
    → (can_access_token fails auth_mode user token delete db
        ≡ can_manage_grants auth_mode user token)
      × (can_access_token fails auth_mode user token grant db
          ≡ can_manage_grants auth_mode user token)
unfolding can_access_token can_manage_grants get_hook_grant
can_manage_grants-can_access_token fails auth_mode none token db = (ground arith, ground arith)
can_manage_grants-can_access_token true auth_mode (some u) token db = (ground arith, ground arith)
can_manage_grants-can_access_token false auth_mode (some u) token db = (
  elim (Option-cases (find (λ g. g.token_id == token.uuid && g.user_id == u.id) db.hook_grants)) [
    | inl e ↦ rw e (ground arith)
    | inr (g, e) ↦ rw e (ground arith)
  ],
  elim (Option-cases (find (λ g. g.token_id == token.uuid && g.user_id == u.id) db.hook_grants)) [
    | inl e ↦ rw e (ground arith)
    | inr (g, e) ↦ rw e (ground arith)
  ],
)

edit_under_delete :
    (fails : Bool) (auth_mode : String) (user : Option User) (token : Token) (db : Db)
    → (can_access_token fails auth_mode user token delete db ≡ true
        → can_access_token fails auth_mode user token edit db ≡ true)
      × (can_access_token fails auth_mode user token edit db ≡ true
          → can_access_token fails auth_mode user token view db ≡ true)
unfolding can_access_token get_hook_grant
edit_under_delete fails auth_mode none token db = (λ h. ground arith, λ h. ground arith)
edit_under_delete true auth_mode (some u) token db = (λ h. ground arith, λ h. ground arith)
edit_under_delete false auth_mode (some u) token db =
    elim (Option-cases (find (λ g. g.token_id == token.uuid && g.user_id == u.id) db.hook_grants)) [
      | inl e ↦ rw e (λ h. ground arith, λ h. ground arith)
      | inr (g, e) ↦ rw e (λ h. ground arith, λ h. ground arith)
    ]

-- The actions that an action is above: deletion is above editing, and that above viewing.
unfoldable pub lesser : HookAction → List HookAction
lesser view = []
lesser edit = view ∷ []
lesser delete = edit ∷ view ∷ []
lesser grant = delete ∷ edit ∷ view ∷ []
lesser unlisted = []

-- Who may take an action may take every lesser one: who may manage grants may delete, who may delete
-- may edit, and who may edit may view.
pub access_nested :
    (fails : Bool) (auth_mode : String) (user : Option User) (token : Token) (action : HookAction)
    (db : Db)
    → can_access_token fails auth_mode user token action db ≡ true
    → all (λ a. can_access_token fails auth_mode user token a db) (lesser action) ≡ true
unfolding lesser
access_nested fails auth_mode user token view db h = refl
access_nested fails auth_mode user token unlisted db h = refl
access_nested fails auth_mode user token edit db h =
    let steps = edit_under_delete fails auth_mode user token db in rw (steps.1 h) refl
access_nested fails auth_mode user token delete db h =
    let steps = edit_under_delete fails auth_mode user token db in
    rw (steps.0 h, steps.1 (steps.0 h)) refl
access_nested fails auth_mode user token grant db h =
    let steps = edit_under_delete fails auth_mode user token db in
    let same = can_manage_grants-can_access_token fails auth_mode user token db in
    let deletes = same.0 ∙ sym same.1 ∙ h in
    rw (deletes, steps.0 deletes, steps.1 (steps.0 deletes)) refl
