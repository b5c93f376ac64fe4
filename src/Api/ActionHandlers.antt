-- ===== src/Api/ActionHandlers.antt =====
-- internal/api/actions.go: the handlers of the actions of a hook.
use hookwatch.Api.ActionConfig.{ActionLibs, validate_action_config, validate_action_type}
use hookwatch.Api.Answer.{Answer, HookCall, Refusal, Server, open_hook, refused, replied}
use hookwatch.Authz.{edit, view}
use hookwatch.Models.{Action, Time, Token}
use hookwatch.Prelude.{
  Bool, List, Option, Result, String, [], err, none, ok, or_else, some, true, ℕ, ℤ, ◌∷◌,
}
use hookwatch.Store.Actions.{
  create_action, delete_action, get_action, list_actions_by_token, next_action_sort_order,
  reorder_actions, update_action,
}
use hookwatch.Store.Db.{Db, StoreError, not_found}
use hookwatch.Store.Order.{OrderBy, Transaction}

-- createActionPayload, a missing config being the empty text, and updateActionPayload.
pub record CreateAction : Type 0 where
  pub type : String
  pub config : String
  pub enabled : Option Bool

pub record UpdateAction : Type 0 where
  pub type : Option String
  pub config : Option String
  pub enabled : Option Bool

-- What a handler reads besides the request: the clock, a fresh identifier, and which of the store's
-- calls after the load fail.
pub record ActionCall : Type 0 where
  pub now : Time
  pub new_id : String
  pub query_fails : Bool
  pub write_fails : Bool

unfoldable pub new_action : ActionCall → String → CreateAction → ℤ → Action
new_action call token_id payload order = record {
  uuid = call.new_id;
  token_id = token_id;
  type = payload.type;
  config = payload.config;
  sort_order = order;
  enabled = or_else payload.enabled true;
  created_at = call.now;
  updated_at = call.now;
}

unfoldable pub action_created : Action → Result StoreError (Unit {0}) × Db → Answer Action × Db
action_created action (err e, db) = (refused (500, "failed to create action"), db)
action_created action (ok u, db) = (replied 201 action, db)

unfoldable pub create_ordered :
    ActionCall → String → CreateAction → Result StoreError ℤ → Db → Answer Action × Db
unfolding action_created new_action
create_ordered call token_id payload (err e) db =
    (refused (500, "failed to determine sort order"), db)
create_ordered call token_id payload (ok order) db =
    let action = new_action call token_id payload order in
    action_created action (create_action call.write_fails action db)

unfoldable pub create_configured :
    ActionCall → String → CreateAction → Result String (Unit {0}) → Db → Answer Action × Db
unfolding create_ordered
create_configured call token_id payload (err message) db = (refused (400, message), db)
create_configured call token_id payload (ok u) db =
    create_ordered call token_id payload (next_action_sort_order call.query_fails token_id db) db

-- The type is validated before the configuration.
unfoldable pub validate_typed :
    ActionLibs → String → String → Result String (Unit {0}) → Result String (Unit {0})
validate_typed lib type config (err message) = err message
validate_typed lib type config (ok u) = validate_action_config lib type config

unfoldable pub validate_action : ActionLibs → String → String → Result String (Unit {0})
unfolding validate_typed
validate_action lib type config = validate_typed lib type config (validate_action_type type)

unfoldable pub create_action_opened :
    ActionLibs
    → ActionCall
    → String
    → Option CreateAction
    → Result Refusal Token
    → Db
    → Answer Action × Db
unfolding create_configured validate_action
create_action_opened lib call token_id payload (err r) db = (refused r, db)
create_action_opened lib call token_id none (ok token) db = (refused (400, "invalid JSON body"), db)
create_action_opened lib call token_id (some payload) (ok token) db =
    create_configured call token_id payload (validate_action lib payload.type payload.config) db

unfoldable pub handle_create_action :
    ActionLibs → Server → HookCall → ActionCall → Option CreateAction → Db → Answer Action × Db
unfolding create_action_opened
handle_create_action lib server hook_call call payload db =
    create_action_opened lib call hook_call.token_id payload (open_hook server hook_call edit db) db

unfoldable pub with_type : String → Action → Result String (Unit {0}) → Result String Action
with_type type action (err message) = err message
with_type type action (ok u) = ok (record action { type = type })

-- A type that is set is validated, with the configuration as it is.
unfoldable pub set_type : Option String → Action → Result String Action
unfolding with_type
set_type none action = ok action
set_type (some type) action = with_type type action (validate_action_type type)

unfoldable pub with_config : String → Action → Result String (Unit {0}) → Result String Action
with_config config action (err message) = err message
with_config config action (ok u) = ok (record action { config = config })

unfoldable pub set_config : ActionLibs → Option String → Result String Action → Result String Action
unfolding with_config
set_config lib config (err message) = err message
set_config lib none (ok action) = ok action
set_config lib (some config) (ok action) =
    with_config config action (validate_action_config lib action.type config)

unfoldable pub action_updated : Action → Result StoreError (Unit {0}) × Db → Answer Action × Db
action_updated action (err e, db) = (refused (500, "failed to update action"), db)
action_updated action (ok u, db) = (replied 200 action, db)

unfoldable pub update_configured :
    ActionCall → UpdateAction → Result String Action → Db → Answer Action × Db
unfolding action_updated
update_configured call payload (err message) db = (refused (400, message), db)
update_configured call payload (ok a) db =
    let action = record a { enabled = or_else payload.enabled a.enabled; updated_at = call.now } in
    action_updated action (update_action call.write_fails action db)

unfoldable pub update_found :
    ActionLibs
    → ActionCall
    → Option UpdateAction
    → Result StoreError Action
    → Db
    → Answer Action × Db
unfolding update_configured set_type set_config
update_found lib call payload (err not_found) db = (refused (404, "action not found"), db)
update_found lib call payload (err e) db = (refused (500, "failed to get action"), db)
update_found lib call none (ok action) db = (refused (400, "invalid JSON body"), db)
update_found lib call (some payload) (ok action) db =
    update_configured call payload (set_config lib payload.config (set_type payload.type action)) db

unfoldable pub update_action_opened :
    ActionLibs
    → ActionCall
    → String
    → String
    → Option UpdateAction
    → Result Refusal Token
    → Db
    → Answer Action × Db
unfolding update_found
update_action_opened lib call token_id action_id payload (err r) db = (refused r, db)
update_action_opened lib call token_id action_id payload (ok token) db =
    update_found lib call payload (get_action call.query_fails token_id action_id db) db

unfoldable pub handle_update_action :
    ActionLibs
    → Server
    → HookCall
    → ActionCall
    → String
    → Option UpdateAction
    → Db
    → Answer Action × Db
unfolding update_action_opened
handle_update_action lib server hook_call call action_id payload db =
    update_action_opened lib call hook_call.token_id action_id payload
      (open_hook server hook_call edit db) db

unfoldable pub action_deleted : Result StoreError (Unit {0}) × Db → Answer (Unit {0}) × Db
action_deleted (err not_found, db) = (refused (404, "action not found"), db)
action_deleted (err e, db) = (refused (500, "failed to delete action"), db)
action_deleted (ok u, db) = (replied 204 tt, db)

unfoldable pub delete_action_opened :
    Bool → String → String → Result Refusal Token → Db → Answer (Unit {0}) × Db
unfolding action_deleted
delete_action_opened fails token_id action_id (err r) db = (refused r, db)
delete_action_opened fails token_id action_id (ok token) db =
    action_deleted (delete_action fails token_id action_id db)

unfoldable pub handle_delete_action :
    Server → HookCall → ActionCall → String → Db → Answer (Unit {0}) × Db
unfolding delete_action_opened
handle_delete_action server hook_call call action_id db =
    delete_action_opened call.write_fails hook_call.token_id action_id
      (open_hook server hook_call edit db) db

unfoldable pub reordered : Result StoreError (Unit {0}) × Db → Answer (Unit {0}) × Db
reordered (err e, db) = (refused (500, "failed to reorder actions"), db)
reordered (ok u, db) = (replied 204 tt, db)

unfoldable pub reorder_opened :
    Transaction
    → Bool
    → (ℕ → Bool)
    → String
    → Option (List String)
    → Result Refusal Token
    → Db
    → Answer (Unit {0}) × Db
unfolding reordered
reorder_opened tx begin_fails fails token_id ids (err r) db = (refused r, db)
reorder_opened tx begin_fails fails token_id none (ok token) db =
    (refused (400, "invalid JSON body"), db)
reorder_opened tx begin_fails fails token_id (some []) (ok token) db =
    (refused (400, "action_ids must not be empty"), db)
reorder_opened tx begin_fails fails token_id (some (id ∷ ids)) (ok token) db =
    reordered (reorder_actions tx begin_fails fails token_id (id ∷ ids) db)

unfoldable pub handle_reorder :
    Transaction
    → Server
    → HookCall
    → Bool
    → (ℕ → Bool)
    → Option (List String)
    → Db
    → Answer (Unit {0}) × Db
unfolding reorder_opened
handle_reorder tx server hook_call begin_fails fails ids db =
    reorder_opened tx begin_fails fails hook_call.token_id ids (open_hook server hook_call edit db)
      db

unfoldable pub actions_listed : Result StoreError (List Action) → Answer (List Action)
actions_listed (err e) = refused (500, "failed to list actions")
actions_listed (ok actions) = replied 200 actions

-- listActions
unfoldable pub handle_list_actions :
    OrderBy Action → Server → HookCall → ActionCall → Db → Answer (List Action)
unfolding actions_listed
handle_list_actions order server hook_call call db = elim (open_hook server hook_call view db) [
  | err r ↦ refused r
  | ok token ↦ actions_listed (list_actions_by_token order call.query_fails hook_call.token_id db)
]
