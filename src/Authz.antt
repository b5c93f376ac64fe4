-- ===== src/Authz.antt =====
-- internal/authz/authz.go: who may do what with a hook. The current user is `none` for a caller
-- without a session; `fails` is a failure of the query for the grant.
pub mod Policy
pub mod Standing
use hookwatch.Models.{HookGrant, Token, User}
use hookwatch.Prelude.{
  Bool, Option, Result, String, err, false, holds, if◌then◌else◌, nat_eq, none, ok, some, string_eq,
  true, ◌&&◌, ◌==◌, ◌||◌,
}
use hookwatch.Store.Db.{Db, StoreError}
use hookwatch.Store.Grants.{get_hook_grant}

abbrev pub role_viewer : String
role_viewer = "viewer"

abbrev pub role_editor : String
role_editor = "editor"

abbrev pub global_role_admin : String
global_role_admin = "admin"

-- `unlisted` is any string that is none of the four constants.
pub data HookAction : Type 0 where
  view edit delete grant unlisted : HookAction

abbrev pub is_view : HookAction → Bool
is_view view = true
is_view _ = false

-- The final switch, on the role of the grant that was found.
grant_allows : HookAction → Result StoreError HookGrant → Bool
grant_allows action (err e) = false
grant_allows view (ok g) = g.role == role_viewer || g.role == role_editor
grant_allows edit (ok g) = g.role == role_editor
grant_allows delete (ok g) = false
grant_allows grant (ok g) = false
grant_allows unlisted (ok g) = false

user_can_access : Bool → User → Token → HookAction → Db → Bool
unfolding grant_allows
user_can_access fails user token action db =
    if user.global_role == global_role_admin
    then true
    else if holds token.owner_id user.id
    then true
    else grant_allows action (get_hook_grant fails token.uuid user.id db)

unfoldable pub can_access_token : Bool → String → Option User → Token → HookAction → Db → Bool
unfolding user_can_access
can_access_token fails auth_mode user token action db =
    if auth_mode == "none"
    then true
    else if is_view action && token.view_mode == "public"
    then true
    else elim user [ none ↦ false | some u ↦ user_can_access fails u token action db ]

unfoldable pub is_admin : Option User → Bool
is_admin none = false
is_admin (some u) = u.global_role == global_role_admin

unfoldable pub is_owner : Option User → Token → Bool
is_owner none token = false
is_owner (some u) token = holds token.owner_id u.id

unfoldable pub can_manage_grants : String → Option User → Token → Bool
unfolding is_admin is_owner
can_manage_grants auth_mode user token =
    if auth_mode == "none" then true else is_admin user || is_owner user token
