-- ===== src/Store/PeopleLists.antt =====
-- internal/store: the lists of users, of grants, and of tokens with who may use them.
use hookwatch.Models.{HookGrant, Time, Token, User}
use hookwatch.Prelude.{
  Bool, List, Option, Result, String, drop, err, find, holds, if◌then◌else◌, is_some, length, map,
  nat_eq, none, ok, pos, select, some, string_eq, take, ℕ, ℤ, ◌&&◌, ◌==◌, ◌||◌,
}
use hookwatch.Store.Config.{Config}
use hookwatch.Store.Db.{Db, StoreError, driver}
use hookwatch.Store.Listing.{
  ListParams, is_active_row, normalize_limit, normalize_offset, sort_direction, token_sort_column,
}
use hookwatch.Store.Order.{OrderBy}
use hookwatch.Store.Tokens.{scan_token}

-- ListUsers: the page and the number of all users.
unfoldable pub list_users : OrderBy User → Bool → ℤ → ℤ → Db → Result StoreError (List User × ℕ)
unfolding normalize_limit normalize_offset sort_direction
list_users order fails limit offset db =
    if fails
    then err driver
    else ok (
      take (normalize_limit limit) (
          drop (normalize_offset offset)
            (order.sort (λ u. sort_direction "desc" (pos u.created_at)) db.users)),
      length db.users,
    )

-- ListHookGrants
unfoldable pub list_hook_grants :
    OrderBy HookGrant → Bool → String → Db → Result StoreError (List HookGrant)
list_hook_grants order fails token_id db =
    if fails
    then err driver
    else ok
        (order.sort (λ g. pos g.created_at) (select (λ g. g.token_id == token_id) db.hook_grants))

-- TokenListEntry and TokenListPage
pub record TokenListEntry : Type 0 where
  pub token : Token
  pub access_role : String
  pub owner_display : String

pub record TokenListPage : Type 0 where
  pub items : List TokenListEntry
  pub total : ℕ
  pub limit : ℕ
  pub offset : ℕ

-- LEFT JOIN hook_grants: the pair (token_id, user_id) is unique, so a token has one grant at most.
unfoldable pub grant_of : String → List HookGrant → Token → Option HookGrant
grant_of user_id grants token = find (λ g. g.token_id == token.uuid && g.user_id == user_id) grants

-- t.owner_id = ? OR g.user_id IS NOT NULL
unfoldable pub is_shared_with : String → List HookGrant → Token → Bool
unfolding grant_of
is_shared_with user_id grants token =
    holds token.owner_id user_id || is_some (grant_of user_id grants token)

abbrev role_of : Option HookGrant → String
role_of none = ""
role_of (some g) = g.role

unfoldable pub user_entry : Config → String → List HookGrant → Token → TokenListEntry
unfolding scan_token grant_of
user_entry cfg user_id grants token = record {
  token = scan_token cfg token;
  access_role =
      if holds token.owner_id user_id then "owner" else role_of (grant_of user_id grants token);
  owner_display = "";
}

abbrev entries_page :
    OrderBy Token → ListParams → (Token → TokenListEntry) → List Token → TokenListPage
entries_page order params entry rows = record {
  items = map entry (
      take (normalize_limit params.limit) (
        drop (normalize_offset params.offset) (
          order.sort (λ t. sort_direction params.order (pos (token_sort_column params.sort_by t)))
            rows)));
  total = length rows;
  limit = normalize_limit params.limit;
  offset = normalize_offset params.offset;
}

unfoldable pub list_tokens_for_user :
    OrderBy Token
    → Bool
    → Config
    → Time
    → String
    → ListParams
    → Db
    → Result StoreError TokenListPage
unfolding is_shared_with user_entry is_active_row
list_tokens_for_user order fails cfg now user_id params db =
    if fails
    then err driver
    else ok (
        entries_page order params (user_entry cfg user_id db.hook_grants)
          (select (λ t. is_active_row now t && is_shared_with user_id db.hook_grants t) db.tokens))

-- COALESCE(NULLIF(u.display_name, ''), u.email, 'Anonymous')
unfoldable pub display_of : Option User → String
display_of none = "Anonymous"
display_of (some u) = if u.display_name == "" then u.email else u.display_name

abbrev owner_of : Option String → List User → Option User
owner_of none users = none
owner_of (some id) users = find (λ u. u.id == id) users

unfoldable pub admin_entry : Config → List User → Token → TokenListEntry
unfolding scan_token display_of
admin_entry cfg users token = record {
  token = scan_token cfg token;
  access_role = "admin";
  owner_display = display_of (owner_of token.owner_id users);
}

unfoldable pub list_tokens_for_admin :
    OrderBy Token → Bool → Config → Time → ListParams → Db → Result StoreError TokenListPage
unfolding admin_entry is_active_row
list_tokens_for_admin order fails cfg now params db =
    if fails
    then err driver
    else ok (
        entries_page order params (admin_entry cfg db.users) (select (is_active_row now) db.tokens))
