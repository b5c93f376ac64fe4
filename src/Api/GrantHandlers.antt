-- ===== src/Api/GrantHandlers.antt =====
-- internal/api/grants.go: the handlers of the grants of a hook. They load a hook also if it has expired.
use hookwatch.Api.Answer.{Answer, Refusal, Server, refused, replied}
use hookwatch.Authz.{can_manage_grants}
use hookwatch.Models.{HookGrant, Time, Token, User}
use hookwatch.Prelude.{
  Bool, List, Option, Result, String, err, holds, if◌then◌else◌, nat_eq, none, not, ok, some,
  string_eq, to_lower, trim_space, ◌&&◌, ◌==◌,
}
use hookwatch.Store.Db.{Db, StoreError, not_found, unique_violation}
use hookwatch.Store.Grants.{create_hook_grant, delete_hook_grant_by_token_and_user}
use hookwatch.Store.Order.{OrderBy}
use hookwatch.Store.PeopleLists.{list_hook_grants}
use hookwatch.Store.Tokens.{get_token}
use hookwatch.Store.Users.{get_user, get_user_by_email}

-- createGrantRequest
pub record CreateGrant : Type 0 where
  pub user_id : String
  pub email : String
  pub role : String

-- What a handler reads besides: who asks, the clock, a fresh identifier, and which calls fail.
pub record GrantCall : Type 0 where
  pub token_id : String
  pub user : Option User
  pub now : Time
  pub new_id : String
  pub get_fails : Bool
  pub user_fails : Bool
  pub write_fails : Bool

unfoldable pub managed_token : Server → Option User → Result StoreError Token → Result Refusal Token
managed_token server user (err not_found) = err (404, "token not found")
managed_token server user (err e) = err (500, "failed to get token")
managed_token server user (ok token) =
    if can_manage_grants server.auth_mode user token
    then ok token
    else err (403, "insufficient permissions")

-- The beginning of the handlers.
unfoldable pub manage : Server → GrantCall → Db → Result Refusal Token
unfolding managed_token
manage server call db =
    managed_token server call.user (get_token call.get_fails server.cfg call.token_id db)

-- A role that is not given is a viewer's.
unfoldable pub grant_role : String → String
grant_role role = if to_lower (trim_space role) == "" then "viewer" else to_lower (trim_space role)

unfoldable pub target_of : Result StoreError User → Result Refusal String
target_of (err not_found) = err (404, "user not found")
target_of (err e) = err (500, "failed to look up user")
target_of (ok user) = ok user.id

-- The user by the identifier, or by the address.
unfoldable pub resolve_target : Bool → CreateGrant → Db → Result Refusal String
unfolding target_of
resolve_target fails req db =
    if not (req.user_id == "")
    then target_of (get_user fails req.user_id db)
    else if not (req.email == "")
    then target_of (get_user_by_email fails (trim_space req.email) db)
    else err (400, "user_id or email is required")

abbrev id_or_empty : Option User → String
id_or_empty none = ""
id_or_empty (some user) = user.id

unfoldable pub new_grant : GrantCall → String → String → HookGrant
new_grant call user_id role = record {
  id = call.new_id;
  token_id = call.token_id;
  user_id = user_id;
  role = role;
  granted_by = id_or_empty call.user;
  created_at = call.now;
}

unfoldable pub grant_created : HookGrant → Result StoreError (Unit {0}) × Db → Answer HookGrant × Db
grant_created g (err unique_violation, db) =
    (refused (409, "grant already exists for this user"), db)
grant_created g (err e, db) = (refused (500, "failed to create grant"), db)
grant_created g (ok u, db) = (replied 201 g, db)

unfoldable pub grant_to :
    GrantCall → Token → String → Result Refusal String → Db → Answer HookGrant × Db
unfolding grant_created new_grant
grant_to call token role (err r) db = (refused r, db)
grant_to call token role (ok user_id) db =
    if holds token.owner_id user_id
    then (refused (400, "cannot grant access to token owner"), db)
    else grant_created (new_grant call user_id role)
        (create_hook_grant call.write_fails (new_grant call user_id role) db)

unfoldable pub create_grant_managed :
    GrantCall → Option CreateGrant → Result Refusal Token → Db → Answer HookGrant × Db
unfolding grant_to grant_role resolve_target
create_grant_managed call req (err r) db = (refused r, db)
create_grant_managed call none (ok token) db = (refused (400, "invalid JSON body"), db)
create_grant_managed call (some req) (ok token) db =
    let role = grant_role req.role in
    if not (role == "viewer") && not (role == "editor")
    then (refused (400, "role must be viewer or editor"), db)
    else grant_to call token role (resolve_target call.user_fails req db) db

-- createGrant
unfoldable pub handle_create_grant :
    Server → GrantCall → Option CreateGrant → Db → Answer HookGrant × Db
unfolding create_grant_managed
handle_create_grant server call req db = create_grant_managed call req (manage server call db) db

unfoldable pub grants_listed : Result StoreError (List HookGrant) → Answer (List HookGrant)
grants_listed (err e) = refused (500, "failed to list grants")
grants_listed (ok grants) = replied 200 grants

-- listGrants
unfoldable pub handle_list_grants :
    OrderBy HookGrant → Server → GrantCall → Db → Answer (List HookGrant)
unfolding grants_listed
handle_list_grants order server call db = elim (manage server call db) [
  | err r ↦ refused r
  | ok token ↦ grants_listed (list_hook_grants order call.write_fails call.token_id db)
]

unfoldable pub grant_deleted : Result StoreError (Unit {0}) × Db → Answer (Unit {0}) × Db
grant_deleted (err not_found, db) = (refused (404, "grant not found"), db)
grant_deleted (err e, db) = (refused (500, "failed to delete grant"), db)
grant_deleted (ok u, db) = (replied 204 tt, db)

unfoldable pub delete_grant_managed :
    GrantCall → String → Result Refusal Token → Db → Answer (Unit {0}) × Db
unfolding grant_deleted
delete_grant_managed call user_id (err r) db = (refused r, db)
delete_grant_managed call user_id (ok token) db =
    grant_deleted (delete_hook_grant_by_token_and_user call.write_fails call.token_id user_id db)

-- deleteGrant
unfoldable pub handle_delete_grant : Server → GrantCall → String → Db → Answer (Unit {0}) × Db
unfolding delete_grant_managed
handle_delete_grant server call user_id db =
    delete_grant_managed call user_id (manage server call db) db
