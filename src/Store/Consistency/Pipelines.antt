-- ===== src/Store/Consistency/Pipelines.antt =====
-- Every operation on actions and their logs keeps the references.
use hookwatch.Models.{Action, ActionLog, Time}
use hookwatch.Prelude.{
  All-append, All-update_where, Bool, Bool-cases, List, String, [], any, any-append_left,
  any-update_where, arith, false, inl, inr, nat_eq, pos, refl, string_eq, true, update_where, ℕ,
  ◌&&◌, ◌+◌, ◌==◌, ◌∷◌, ◌≡◌,
}
use hookwatch.Store.ActionLogs.{create_action_log, log_row, update_action_log, updated_log}
use hookwatch.Store.Actions.{
  LoopExit, action_missing, action_row, create_action, delete_action, end_reorder, finished,
  is_action, reorder_actions, reorder_loop, set_order, statement_failed, update_action,
  updated_action,
}
use hookwatch.Store.Consistency.{IsConsistent}
use hookwatch.Store.Consistency.Deletes.{delete_actions_where-IsConsistent}
use hookwatch.Store.Consistency.Tables.{
  actions-IsConsistent, limits-IsConsistent, logs-IsConsistent,
}
use hookwatch.Store.Db.{Db, action_exists, request_exists, token_exists}
use hookwatch.Store.Order.{Transaction}
use hookwatch.Store.RateLimits.{cleanup_rate_limits, increment_rate_limit}

module _ {db : Db} (v : IsConsistent db) where
  -- Rewriting actions without touching their keys.
  rewrite-IsConsistent :
      (p : Action → Bool) (f : Action → Action)
      → ((a : Action) → ((f a).uuid ≡ a.uuid) × ((f a).token_id ≡ a.token_id))
      → IsConsistent (record db { actions = update_where p f db.actions })
  rewrite-IsConsistent p f same =
      actions-IsConsistent v _
        (λ id. any-update_where p (λ a. a.uuid == id) f db.actions (λ a m q. rw ((same a).0) q))
        (All-update_where (λ a. token_exists a.token_id db ≡ true) p f db.actions
          (λ a m h. rw ((same a).1) h) v.actions_tokens)

  pub create_action-IsConsistent :
      (fails : Bool) (action : Action) → IsConsistent (create_action fails action db).1
  unfolding create_action action_row
  create_action-IsConsistent true action = v
  create_action-IsConsistent false action = elim (Bool-cases (action_exists action.uuid db)) [
    | inl e ↦ rw e v
    | inr e ↦ elim (Bool-cases (token_exists action.token_id db)) [
      | inl o ↦
          rw (e, o)
            (actions-IsConsistent v _ (λ id. any-append_left (λ a. a.uuid == id) db.actions _)
              (All-append (λ a. token_exists a.token_id db ≡ true) db.actions _ v.actions_tokens
                (o, tt)))
      | inr o ↦ rw (e, o) v
    ]
  ]

  pub update_action-IsConsistent :
      (fails : Bool) (action : Action) → IsConsistent (update_action fails action db).1
  unfolding update_action
  update_action-IsConsistent true action = v
  update_action-IsConsistent false action =
      elim (Bool-cases (any (is_action action.token_id action.uuid) db.actions)) [
        | inl e ↦ rw e (rewrite-IsConsistent _ (updated_action action) (λ a. (refl, refl)))
        | inr e ↦ rw e v
      ]

  pub delete_action-IsConsistent :
      (fails : Bool) (token_id action_id : String)
      → IsConsistent (delete_action fails token_id action_id db).1
  unfolding delete_action
  delete_action-IsConsistent true token_id action_id = v
  delete_action-IsConsistent false token_id action_id =
      elim (Bool-cases (any (is_action token_id action_id) db.actions)) [
        | inl e ↦ rw e (delete_actions_where-IsConsistent v _)
        | inr e ↦ rw e v
      ]

  pub set_order-IsConsistent :
      (i : ℕ) (token_id action_id : String)
      → IsConsistent (record db { actions = set_order i token_id action_id db.actions })
  unfolding set_order
  set_order-IsConsistent i token_id action_id =
      rewrite-IsConsistent _ (λ row. record row { sort_order = pos i }) (λ a. (refl, refl))

  pub create_action_log-IsConsistent :
      (fails : Bool) (log : ActionLog) → IsConsistent (create_action_log fails log db).1
  unfolding create_action_log log_row
  create_action_log-IsConsistent true log = v
  create_action_log-IsConsistent false log =
      elim (Bool-cases (any (λ l. l.uuid == log.uuid) db.action_logs)) [
        | inl e ↦ rw e v
        | inr e ↦
            elim (Bool-cases (action_exists log.action_id db && request_exists log.request_id db)) [
              | inl o ↦
                  rw (e, o)
                    (logs-IsConsistent v _
                      (All-append (λ l. action_exists l.action_id db ≡ true) db.action_logs _
                        v.logs_actions (ground arith, tt))
                      (All-append (λ l. request_exists l.request_id db ≡ true) db.action_logs _
                        v.logs_requests (ground arith, tt)))
              | inr o ↦ rw (e, o) v
            ]
      ]

  pub update_action_log-IsConsistent :
      (fails : Bool) (log : ActionLog) → IsConsistent (update_action_log fails log db).1
  unfolding update_action_log
  update_action_log-IsConsistent true log = v
  update_action_log-IsConsistent false log =
      elim (Bool-cases (any (λ l. l.uuid == log.uuid) db.action_logs)) [
        | inl e ↦ rw e (
            logs-IsConsistent v _
              (All-update_where (λ l. action_exists l.action_id db ≡ true) _ (updated_log log)
                db.action_logs (λ l m h. h) v.logs_actions)
              (All-update_where (λ l. request_exists l.request_id db ≡ true) _ (updated_log log)
                db.action_logs (λ l m h. h) v.logs_requests))
        | inr e ↦ rw e v
      ]

  pub increment_rate_limit-IsConsistent :
      (fails query_fails : Bool) (ip token_id : String) (window : Time)
      → IsConsistent (increment_rate_limit fails query_fails ip token_id window db).1
  unfolding increment_rate_limit
  increment_rate_limit-IsConsistent true q ip token_id window = v
  increment_rate_limit-IsConsistent false true ip token_id window = limits-IsConsistent v _
  increment_rate_limit-IsConsistent false false ip token_id window = limits-IsConsistent v _

  pub cleanup_rate_limits-IsConsistent :
      (fails : Bool) (before : Time) → IsConsistent (cleanup_rate_limits fails before db).1
  unfolding cleanup_rate_limits
  cleanup_rate_limits-IsConsistent true before = v
  cleanup_rate_limits-IsConsistent false before = limits-IsConsistent v _

-- The loop of ReorderActions, as far as it comes.
reorder_loop-IsConsistent :
    (db : Db) (fails : ℕ → Bool) (i : ℕ) (token_id : String) (ids : List String)
    (actions : List Action)
    → IsConsistent (record db { actions = actions })
    → IsConsistent (record db { actions = (reorder_loop fails i token_id ids actions).1 })
unfolding reorder_loop
reorder_loop-IsConsistent db fails i token_id [] actions v = v
reorder_loop-IsConsistent db fails i token_id (id ∷ ids) actions v = elim (Bool-cases (fails i)) [
  | inl e ↦ rw e v
  | inr e ↦ elim (Bool-cases (any (is_action token_id id) actions)) [
    | inl o ↦
        rw (e, o)
          (reorder_loop-IsConsistent db fails (i + 1) token_id ids _
            (set_order-IsConsistent v i token_id id))
    | inr o ↦ rw (e, o) v
  ]
]

end_reorder-IsConsistent :
    {db : Db} (tx : Transaction) (r : LoopExit × List Action)
    → IsConsistent db
    → IsConsistent (record db { actions = r.1 })
    → IsConsistent (end_reorder tx db r).1
unfolding end_reorder
end_reorder-IsConsistent tx (finished, actions) v w = rw (tx.commits _ _) w
end_reorder-IsConsistent tx (statement_failed, actions) v w = rw (tx.rolls_back _ _) v
end_reorder-IsConsistent tx (action_missing, actions) v w = rw (tx.commits _ _) w

pub reorder_actions-IsConsistent :
    {db : Db} (v : IsConsistent db) (tx : Transaction) (begin_fails : Bool) (fails : ℕ → Bool)
    (token_id : String) (ids : List String)
    → IsConsistent (reorder_actions tx begin_fails fails token_id ids db).1
unfolding reorder_actions
reorder_actions-IsConsistent v tx true fails token_id ids = v
reorder_actions-IsConsistent {db} v tx false fails token_id ids =
    end_reorder-IsConsistent tx _ v (reorder_loop-IsConsistent db fails 0 token_id ids db.actions v)
