-- ===== src/Api/AdminHandlers.antt =====
-- internal/api/admin.go and the handler listTokens of tokens.go. RequireAdmin stands before the handlers
-- of admin.go (NewRouter).
use hookwatch.Api.Answer.{Answer, Refusal, Server, refused, replied}
use hookwatch.Api.ListQuery.{ListLibs, parse_token_list_params}
use hookwatch.Header.{get}
use hookwatch.Models.{Time, Token, User}
use hookwatch.Prelude.{
  Bool, List, Option, Result, String, err, holds, if◌then◌else◌, ltb, map, nat_eq, negsuc, none, ok,
  or_else, pos, some, string_eq, to_lower, trim_space, true, ℕ, ◌==◌, ◌||◌,
}
use hookwatch.Store.Db.{Db, StoreError, not_found}
use hookwatch.Store.Listing.{TokenPage, list_tokens}
use hookwatch.Store.Order.{OrderBy}
use hookwatch.Store.PeopleLists.{
  TokenListEntry, TokenListPage, list_tokens_for_admin, list_tokens_for_user, list_users,
}
use hookwatch.Store.Users.{delete_user, get_user, update_user}

-- updateUserRequest
pub record UpdateUser : Type 0 where
  pub display_name : Option String
  pub global_role : Option String

-- The calls of the store that fail, and the clock.
pub record AdminCall : Type 0 where
  pub now : Time
  pub get_fails : Bool
  pub write_fails : Bool

unfoldable pub admin_user : Result StoreError User → Result Refusal User
admin_user (err not_found) = err (404, "user not found")
admin_user (err e) = err (500, "failed to get user")
admin_user (ok user) = ok user

abbrev answer_of : {A : Type 0} → Result Refusal A → Answer A
answer_of (err r) = refused r
answer_of (ok a) = replied 200 a

-- getUser
unfoldable pub handle_get_user : AdminCall → String → Db → Answer User
unfolding admin_user
handle_get_user call id db = answer_of (admin_user (get_user call.get_fails id db))

abbrev is_global_role : String → Bool
is_global_role role = role == "admin" || role == "user"

-- A role that is given must be one of the two.
unfoldable pub set_role : Option String → User → Result Refusal User
set_role none user = ok user
set_role (some raw) user =
    if is_global_role (to_lower (trim_space raw))
    then ok (record user { global_role = to_lower (trim_space raw) })
    else err (400, "global_role must be admin or user")

unfoldable pub user_updated : User → Result StoreError (Unit {0}) × Db → Answer User × Db
user_updated user (err e, db) = (refused (500, "failed to update user"), db)
user_updated user (ok u, db) = (replied 200 user, db)

unfoldable pub update_user_checked : AdminCall → Result Refusal User → Db → Answer User × Db
unfolding user_updated
update_user_checked call (err r) db = (refused r, db)
update_user_checked call (ok user) db =
    let user' = record user { updated_at = call.now } in
    user_updated user' (update_user call.write_fails user' db)

unfoldable pub update_user_found :
    AdminCall → Option UpdateUser → Result Refusal User → Db → Answer User × Db
unfolding update_user_checked set_role
update_user_found call req (err r) db = (refused r, db)
update_user_found call none (ok user) db = (refused (400, "invalid JSON body"), db)
update_user_found call (some req) (ok user) db =
    update_user_checked call
      (set_role req.global_role
        (record user { display_name = or_else req.display_name user.display_name }))
      db

-- updateUser
unfoldable pub handle_update_user : AdminCall → String → Option UpdateUser → Db → Answer User × Db
unfolding update_user_found admin_user
handle_update_user call id req db =
    update_user_found call req (admin_user (get_user call.get_fails id db)) db

unfoldable pub user_deleted : Result StoreError (Unit {0}) × Db → Answer (Unit {0}) × Db
user_deleted (err not_found, db) = (refused (404, "user not found"), db)
user_deleted (err e, db) = (refused (500, "failed to delete user"), db)
user_deleted (ok u, db) = (replied 204 tt, db)

-- deleteUser
unfoldable pub handle_delete_user : AdminCall → String → Db → Answer (Unit {0}) × Db
unfolding user_deleted
handle_delete_user call id db = user_deleted (delete_user call.write_fails id db)

-- A number of the query that is at least the bound, or the default.
unfoldable pub number_or : ListLibs → String → ℕ → ℕ → ℕ
number_or lib raw bound default = if raw == "" then default else elim (lib.atoi raw) [
  | none ↦ default
  | some v ↦ elim v [ negsuc n ↦ default | pos n ↦ if ltb n bound then default else n ]
]

unfoldable pub users_listed : Result StoreError (List User × ℕ) → Answer (List User × ℕ)
users_listed (err e) = refused (500, "failed to list users")
users_listed (ok page) = replied 200 page

-- listUsers
unfoldable pub handle_list_users :
    ListLibs → OrderBy User → AdminCall → (String → String) → Db → Answer (List User × ℕ)
unfolding number_or users_listed
handle_list_users lib order call get db = users_listed (
    list_users order call.get_fails (pos (number_or lib (trim_space (get "limit")) 1 50))
      (pos (number_or lib (trim_space (get "offset")) 0 0)) db)

-- An entry of a list of tokens, with whether the caller may delete the token.
abbrev pub ListedToken : Type 0
ListedToken = TokenListEntry × Bool

abbrev entry_for : (Token → Bool) → TokenListEntry → ListedToken
entry_for can_delete item = (item, can_delete item.token)

unfoldable pub tokens_listed :
    (Token → Bool) → Result StoreError TokenListPage → Answer (List ListedToken × ℕ)
tokens_listed can_delete (err e) = refused (500, "failed to list tokens")
tokens_listed can_delete (ok page) = replied 200 (map (entry_for can_delete) page.items, page.total)

-- listTokens of the administrator
unfoldable pub handle_admin_list_tokens :
    ListLibs
    → OrderBy Token
    → Server
    → AdminCall
    → (String → String)
    → Db
    → Answer (List ListedToken × ℕ)
unfolding tokens_listed
handle_admin_list_tokens lib order server call get db = elim (parse_token_list_params lib get) [
  | err message ↦ refused (400, message)
  | ok params ↦
      tokens_listed (λ t. true)
        (list_tokens_for_admin order call.get_fails server.cfg call.now params db)
]

unfoldable pub open_entries : Result StoreError TokenPage → Answer (List ListedToken × ℕ)
open_entries (err e) = refused (500, "failed to list tokens")
open_entries (ok page) = replied 200 (
  map (λ t. (record { token = t; access_role = ""; owner_display = "" }, true)) page.tokens,
  page.total,
)

-- listTokens of tokens.go: all tokens without authentication, else those of the user.
unfoldable pub handle_list_tokens :
    ListLibs
    → OrderBy Token
    → Server
    → Option User
    → AdminCall
    → (String → String)
    → Db
    → Answer (List ListedToken × ℕ)
unfolding tokens_listed open_entries
handle_list_tokens lib order server user call get db = elim (parse_token_list_params lib get) [
  | err message ↦ refused (400, message)
  | ok params ↦
      if server.auth_mode == "none"
      then open_entries
          (list_tokens order call.get_fails call.write_fails server.cfg call.now params db)
      else elim user [
        | none ↦ refused (401, "authentication required")
        | some u ↦
            tokens_listed (λ t. holds t.owner_id u.id)
              (list_tokens_for_user order call.get_fails server.cfg call.now u.id params db)
      ]
]
