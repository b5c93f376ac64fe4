-- ===== src/Store/Actions.antt =====
-- internal/store/actions.go
pub mod Reorder
use hookwatch.Models.{Action}
use hookwatch.Prelude.{
  Bool, List, Result, String, [], any, err, false, find, if◌then◌else◌, ltb_ℤ, nat_eq, negsuc, ok,
  pos, select, string_eq, true, update_where, ℕ, ℤ, ◌&&◌, ◌++◌, ◌+ℤ◌, ◌+◌, ◌==◌, ◌∷◌,
}
use hookwatch.Store.Db.{
  Db, StoreError, Write, action_exists, delete_actions_where, driver, foreign_key_violation,
  format_time, missing_action, not_found, or_not_found, token_exists, unique_violation,
}
use hookwatch.Store.Order.{OrderBy, Transaction}

unfoldable pub action_row : Action → Action
unfolding format_time
action_row action = record action {
  created_at = format_time action.created_at;
  updated_at = format_time action.updated_at;
}

unfoldable pub create_action : Bool → Action → Write (Unit {0})
unfolding action_row
create_action fails action db =
    if fails
    then (err driver, db)
    else if action_exists action.uuid db
    then (err unique_violation, db)
    else if token_exists action.token_id db
    then (ok tt, record db { actions = db.actions ++ action_row action ∷ [] })
    else (err foreign_key_violation, db)

-- WHERE token_id = ? AND uuid = ?
abbrev pub is_action : String → String → Action → Bool
is_action token_id action_id a = a.token_id == token_id && a.uuid == action_id

unfoldable pub get_action : Bool → String → String → Db → Result StoreError Action
get_action fails token_id action_id db =
    if fails then err driver else or_not_found (find (is_action token_id action_id) db.actions)

unfoldable pub list_actions_by_token :
    OrderBy Action → Bool → String → Db → Result StoreError (List Action)
list_actions_by_token order fails token_id db =
    if fails
    then err driver
    else ok (order.sort (λ a. a.sort_order) (select (λ a. a.token_id == token_id) db.actions))

unfoldable pub updated_action : Action → Action → Action
unfolding format_time
updated_action action row = record row {
  type = action.type;
  config = action.config;
  sort_order = action.sort_order;
  enabled = action.enabled;
  updated_at = format_time action.updated_at;
}

unfoldable pub update_action : Bool → Action → Write (Unit {0})
unfolding updated_action
update_action fails action db =
    if fails
    then (err driver, db)
    else if any (is_action action.token_id action.uuid) db.actions
    then (
      ok tt,
      record db {
        actions =
            update_where (is_action action.token_id action.uuid) (updated_action action) db.actions;
      },
    )
    else (err not_found, db)

unfoldable pub delete_action : Bool → String → String → Write (Unit {0})
unfolding delete_actions_where
delete_action fails token_id action_id db =
    if fails
    then (err driver, db)
    else if any (is_action token_id action_id) db.actions
    then (ok tt, delete_actions_where (is_action token_id action_id) db)
    else (err not_found, db)

-- UPDATE actions SET sort_order = i WHERE token_id = ? AND uuid = ?
unfoldable pub set_order : ℕ → String → String → List Action → List Action
set_order i token_id action_id =
    update_where (is_action token_id action_id) (λ row. record row { sort_order = pos i })

-- How the loop of ReorderActions is left: at its end, by a failed statement, which sets the
-- variable `err`, or by an identifier that no action has, which does not.
pub data LoopExit : Type 0 where
  finished statement_failed action_missing : LoopExit

-- `fails i` is a failure of the i-th UPDATE.
unfoldable pub reorder_loop :
    (ℕ → Bool) → ℕ → String → List String → List Action → LoopExit × List Action
unfolding set_order
reorder_loop fails i token_id [] actions = (finished, actions)
reorder_loop fails i token_id (id ∷ ids) actions =
    let rest = reorder_loop fails (i + 1) token_id ids (set_order i token_id id actions) in
    if fails i
    then (statement_failed, actions)
    else if any (is_action token_id id) actions
    then rest
    else (action_missing, actions)

-- `endFn(&err)` runs after the return value is fixed, on the variable of the loop.
unfoldable pub end_reorder :
    Transaction → Db → LoopExit × List Action → Result StoreError (Unit {0}) × Db
end_reorder tx db (finished, actions) =
    (ok tt, tx.end_fn false db (record db { actions = actions }))
end_reorder tx db (statement_failed, actions) =
    (err driver, tx.end_fn true db (record db { actions = actions }))
end_reorder tx db (action_missing, actions) =
    (err missing_action, tx.end_fn false db (record db { actions = actions }))

unfoldable pub reorder_actions :
    Transaction → Bool → (ℕ → Bool) → String → List String → Write (Unit {0})
unfolding reorder_loop end_reorder
reorder_actions tx begin_fails fails token_id ids db =
    if begin_fails
    then (err driver, db)
    else end_reorder tx db (reorder_loop fails 0 token_id ids db.actions)

-- COALESCE(MAX(sort_order), -1)
unfoldable pub max_order : String → List Action → ℤ
max_order token_id [] = negsuc 0
max_order token_id (a ∷ rest) =
    let m = max_order token_id rest in
    if a.token_id == token_id
    then if any (λ b. b.token_id == token_id) rest
      then if ltb_ℤ m a.sort_order then a.sort_order else m
      else a.sort_order
    else m

unfoldable pub next_action_sort_order : Bool → String → Db → Result StoreError ℤ
unfolding max_order
next_action_sort_order fails token_id db =
    if fails then err driver else ok (max_order token_id db.actions +ℤ pos 1)
