-- ===== src/Api/ActionUpkeep.antt =====
-- internal/api/actions.go: the configurations of the stored actions over sequences of requests.
pub mod Steps
use hookwatch.Api.ActionConfig.{ActionLibs}
use hookwatch.Api.ActionHandlers.{
  ActionCall, CreateAction, UpdateAction, handle_create_action, handle_delete_action,
  handle_reorder, handle_update_action,
}
use hookwatch.Api.ActionRuns.{IsRunnable}
use hookwatch.Api.Answer.{HookCall, Server}
use hookwatch.Models.{Action}
use hookwatch.Prelude.{
  All, All-append, All-select, All-update_where, Bool, Bool-cases, List, Option, String, [], any,
  false, inl, inr, is_some, not, some, subst, sym, true, ℕ, ◌+◌, ◌||◌, ◌∷◌,
}
use hookwatch.Store.Actions.{
  LoopExit, action_missing, action_row, create_action, delete_action, end_reorder, finished,
  is_action, reorder_actions, reorder_loop, set_order, statement_failed, update_action,
  updated_action,
}
use hookwatch.Store.Db.{Db, action_exists, delete_actions_where, token_exists}
use hookwatch.Store.Order.{Transaction}

-- One request that writes actions.
pub data ActionRequest : Type 0 where
  creates_action : HookCall → ActionCall → Option CreateAction → ActionRequest
  updates_action : HookCall → ActionCall → String → Option UpdateAction → ActionRequest
  deletes_action : HookCall → ActionCall → String → ActionRequest
  reorders_actions : HookCall → Bool → (ℕ → Bool) → Option (List String) → ActionRequest

abbrev pub serve_action : ActionLibs → Server → Transaction → ActionRequest → Db → Db
serve_action lib server tx (creates_action hook_call call payload) db =
    (handle_create_action lib server hook_call call payload db).1
serve_action lib server tx (updates_action hook_call call id payload) db =
    (handle_update_action lib server hook_call call id payload db).1
serve_action lib server tx (deletes_action hook_call call id) db =
    (handle_delete_action server hook_call call id db).1
serve_action lib server tx (reorders_actions hook_call begin_fails fails ids) db =
    (handle_reorder tx server hook_call begin_fails fails ids db).1

abbrev pub serve_actions : ActionLibs → Server → Transaction → List ActionRequest → Db → Db
serve_actions lib server tx [] db = db
serve_actions lib server tx (r ∷ rs) db =
    serve_actions lib server tx rs (serve_action lib server tx r db)

-- A change of the type comes with a configuration.
abbrev pub sets_config : ActionRequest → Bool
sets_config (updates_action hook_call call id (some payload)) =
    not (is_some payload.type) || is_some payload.config
sets_config r = true

-- Every stored action is valid.
abbrev pub AllRunnable : ActionLibs → Db → Type 0
AllRunnable lib db = All (λ a. IsRunnable lib a.type a.config) db.actions

module _ (lib : ActionLibs) where
  pub create_action-AllRunnable :
      (fails : Bool) (a : Action) (db : Db)
      → IsRunnable lib a.type a.config
      → AllRunnable lib db
      → AllRunnable lib (create_action fails a db).1
  unfolding create_action action_row
  create_action-AllRunnable true a db c h = h
  create_action-AllRunnable false a db c h = elim (Bool-cases (action_exists a.uuid db)) [
    | inl e ↦ rw e h
    | inr e ↦ elim (Bool-cases (token_exists a.token_id db)) [
      | inl t ↦ rw (e, t) (All-append (λ a. IsRunnable lib a.type a.config) db.actions _ h (c, tt))
      | inr t ↦ rw (e, t) h
    ]
  ]

  pub update_action-AllRunnable :
      (fails : Bool) (a : Action) (db : Db)
      → IsRunnable lib a.type a.config
      → AllRunnable lib db
      → AllRunnable lib (update_action fails a db).1
  unfolding update_action updated_action
  update_action-AllRunnable true a db c h = h
  update_action-AllRunnable false a db c h =
      elim (Bool-cases (any (is_action a.token_id a.uuid) db.actions)) [
        | inl e ↦ rw e (
            All-update_where (λ a. IsRunnable lib a.type a.config) (is_action a.token_id a.uuid) _
              db.actions (λ row m k. c) h)
        | inr e ↦ rw e h
      ]

  pub delete_action-AllRunnable :
      (fails : Bool) (token_id id : String) (db : Db)
      → AllRunnable lib db
      → AllRunnable lib (delete_action fails token_id id db).1
  unfolding delete_action delete_actions_where
  delete_action-AllRunnable true token_id id db h = h
  delete_action-AllRunnable false token_id id db h =
      elim (Bool-cases (any (is_action token_id id) db.actions)) [
        | inl e ↦ rw e (
            All-select (λ a. IsRunnable lib a.type a.config) (λ a. not (is_action token_id id a))
              db.actions h)
        | inr e ↦ rw e h
      ]

  reorder_loop-All :
      (fails : ℕ → Bool) (i : ℕ) (token_id : String) (ids : List String) (actions : List Action)
      → All (λ a. IsRunnable lib a.type a.config) actions
      → All (λ a. IsRunnable lib a.type a.config) (reorder_loop fails i token_id ids actions).1
  unfolding reorder_loop set_order
  reorder_loop-All fails i token_id [] actions h = h
  reorder_loop-All fails i token_id (id ∷ ids) actions h = elim (Bool-cases (fails i)) [
    | inl f ↦ rw f h
    | inr f ↦ elim (Bool-cases (any (is_action token_id id) actions)) [
      | inl e ↦
          rw (f, e)
            (reorder_loop-All fails (i + 1) token_id ids _ (
              All-update_where (λ a. IsRunnable lib a.type a.config) (is_action token_id id) _
                actions (λ row m k. k) h))
      | inr e ↦ rw (f, e) h
    ]
  ]

  end_reorder-AllRunnable :
      (tx : Transaction) (db : Db) (r : LoopExit × List Action)
      → AllRunnable lib db
      → All (λ a. IsRunnable lib a.type a.config) r.1
      → AllRunnable lib (end_reorder tx db r).1
  unfolding end_reorder
  end_reorder-AllRunnable tx db (finished, actions) h k =
      subst (AllRunnable lib) (sym (tx.commits db (record db { actions = actions }))) k
  end_reorder-AllRunnable tx db (statement_failed, actions) h k =
      subst (AllRunnable lib) (sym (tx.rolls_back db (record db { actions = actions }))) h
  end_reorder-AllRunnable tx db (action_missing, actions) h k =
      subst (AllRunnable lib) (sym (tx.commits db (record db { actions = actions }))) k

  pub reorder_actions-AllRunnable :
      (tx : Transaction) (begin_fails : Bool) (fails : ℕ → Bool) (token_id : String)
      (ids : List String) (db : Db)
      → AllRunnable lib db
      → AllRunnable lib (reorder_actions tx begin_fails fails token_id ids db).1
  unfolding reorder_actions
  reorder_actions-AllRunnable tx true fails token_id ids db h = h
  reorder_actions-AllRunnable tx false fails token_id ids db h =
      end_reorder-AllRunnable tx db _ h (reorder_loop-All fails 0 token_id ids db.actions h)
