-- ===== src/Store/Grants.antt =====
-- internal/store/grants.go
use hookwatch.Models.{HookGrant}
use hookwatch.Prelude.{
  Bool, Result, String, [], any, err, find, if◌then◌else◌, nat_eq, not, ok, select, string_eq, ◌&&◌,
  ◌++◌, ◌==◌, ◌||◌, ◌∷◌,
}
use hookwatch.Store.Db.{
  Db, StoreError, Write, driver, foreign_key_violation, format_time, not_found, or_not_found,
  token_exists, unique_violation, user_exists,
}

unfoldable pub grant_row : HookGrant → HookGrant
unfolding format_time
grant_row grant = record grant { created_at = format_time grant.created_at }

-- The keys id and (token_id, user_id) are unique.
unfoldable pub create_hook_grant : Bool → HookGrant → Write (Unit {0})
unfolding grant_row
create_hook_grant fails grant db =
    if fails
    then (err driver, db)
    else if any
        (λ g. g.id == grant.id || (g.token_id == grant.token_id && g.user_id == grant.user_id))
        db.hook_grants
    then (err unique_violation, db)
    else if token_exists grant.token_id db
        && user_exists grant.user_id db
        && user_exists grant.granted_by db
    then (ok tt, record db { hook_grants = db.hook_grants ++ grant_row grant ∷ [] })
    else (err foreign_key_violation, db)

unfoldable pub get_hook_grant : Bool → String → String → Db → Result StoreError HookGrant
get_hook_grant fails token_id user_id db =
    if fails
    then err driver
    else or_not_found (find (λ g. g.token_id == token_id && g.user_id == user_id) db.hook_grants)

unfoldable pub delete_grants_where : Bool → (HookGrant → Bool) → Write (Unit {0})
delete_grants_where fails p db =
    if fails
    then (err driver, db)
    else if any p db.hook_grants
    then (ok tt, record db { hook_grants = select (λ g. not (p g)) db.hook_grants })
    else (err not_found, db)

unfoldable pub delete_hook_grant : Bool → String → Write (Unit {0})
unfolding delete_grants_where
delete_hook_grant fails grant_id = delete_grants_where fails (λ g. g.id == grant_id)

unfoldable pub delete_hook_grant_by_token_and_user : Bool → String → String → Write (Unit {0})
unfolding delete_grants_where
delete_hook_grant_by_token_and_user fails token_id user_id =
    delete_grants_where fails (λ g. g.token_id == token_id && g.user_id == user_id)
