-- ===== src/Store/Consistency/Deletes.antt =====
-- The cascades of the schema break no reference.
use hookwatch.Models.{Action, Request, Token}
use hookwatch.Prelude.{All-select, Bool, nat_eq, not, string_eq, ◌==◌}
use hookwatch.Store.Consistency.{IsConsistent, select-keeps}
use hookwatch.Store.Db.{
  Db, delete_actions_where, delete_requests_where, delete_tokens_where, orphaned,
}

module _ {db : Db} (v : IsConsistent db) where
  pub delete_requests_where-IsConsistent :
      (p : Request → Bool) → IsConsistent (delete_requests_where p db)
  unfolding delete_requests_where
  delete_requests_where-IsConsistent p = record {
    sessions_users = v.sessions_users;
    tokens_owners = v.tokens_owners;
    requests_tokens = All-select _ (λ r. not (p r)) db.requests v.requests_tokens;
    grants_tokens = v.grants_tokens;
    grants_users = v.grants_users;
    grants_granters = v.grants_granters;
    actions_tokens = v.actions_tokens;
    logs_actions = All-select _ _ db.action_logs v.logs_actions;
    logs_requests =
        select-keeps p (λ l r. r.uuid == l.request_id) db.requests db.action_logs v.logs_requests;
  }

  pub delete_actions_where-IsConsistent :
      (p : Action → Bool) → IsConsistent (delete_actions_where p db)
  unfolding delete_actions_where
  delete_actions_where-IsConsistent p = record {
    sessions_users = v.sessions_users;
    tokens_owners = v.tokens_owners;
    requests_tokens = v.requests_tokens;
    grants_tokens = v.grants_tokens;
    grants_users = v.grants_users;
    grants_granters = v.grants_granters;
    actions_tokens = All-select _ (λ a. not (p a)) db.actions v.actions_tokens;
    logs_actions =
        select-keeps p (λ l a. a.uuid == l.action_id) db.actions db.action_logs v.logs_actions;
    logs_requests = All-select _ _ db.action_logs v.logs_requests;
  }

pub delete_tokens_where-IsConsistent :
    {db : Db} → IsConsistent db → (p : Token → Bool) → IsConsistent (delete_tokens_where p db)
unfolding delete_tokens_where
delete_tokens_where-IsConsistent {db} v p =
    let v' =
      delete_actions_where-IsConsistent
        (delete_requests_where-IsConsistent v (λ r. orphaned p db r.token_id))
        (λ a. orphaned p db a.token_id) in
    record {
      sessions_users = v.sessions_users;
      tokens_owners = All-select _ (λ t. not (p t)) db.tokens v.tokens_owners;
      requests_tokens =
          select-keeps p (λ r t. t.uuid == r.token_id) db.tokens db.requests v.requests_tokens;
      grants_tokens =
          select-keeps p (λ g t. t.uuid == g.token_id) db.tokens db.hook_grants v.grants_tokens;
      grants_users = All-select _ _ db.hook_grants v.grants_users;
      grants_granters = All-select _ _ db.hook_grants v.grants_granters;
      actions_tokens =
          select-keeps p (λ a t. t.uuid == a.token_id) db.tokens db.actions v.actions_tokens;
      logs_actions = v'.logs_actions;
      logs_requests = v'.logs_requests;
    }
