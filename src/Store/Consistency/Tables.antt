-- ===== src/Store/Consistency/Tables.antt =====
-- What one table may become without a reference being broken.
use hookwatch.Models.{Action, ActionLog, HookGrant, Request, Session, Token, User}
use hookwatch.Prelude.{
  All, All-map, List, Option, String, any, nat_eq, none, refl, some, string_eq, true, ◌==◌, ◌≡◌,
}
use hookwatch.Store.Consistency.{IsConsistent}
use hookwatch.Store.Db.{
  Db, RateLimit, action_exists, owner_exists, request_exists, token_exists, user_exists,
}

module _ {db : Db} (v : IsConsistent db) where
  pub users-IsConsistent :
      (us : List User)
      → ((id : String) → user_exists id db ≡ true → any (λ u. u.id == id) us ≡ true)
      → IsConsistent (record db { users = us })
  users-IsConsistent us grow = record {
    sessions_users = All-map _ _ (λ s. grow s.user_id) db.sessions v.sessions_users;
    tokens_owners = All-map _ _ (λ t. owner t.owner_id) db.tokens v.tokens_owners;
    requests_tokens = v.requests_tokens;
    grants_tokens = v.grants_tokens;
    grants_users = All-map _ _ (λ g. grow g.user_id) db.hook_grants v.grants_users;
    grants_granters = All-map _ _ (λ g. grow g.granted_by) db.hook_grants v.grants_granters;
    actions_tokens = v.actions_tokens;
    logs_actions = v.logs_actions;
    logs_requests = v.logs_requests;
  }
    where
      owner : (o : Option String) → owner_exists o db.users ≡ true → owner_exists o us ≡ true
      owner none h = refl
      owner (some id) h = grow id h

  pub tokens-IsConsistent :
      (ts : List Token)
      → ((id : String) → token_exists id db ≡ true → any (λ t. t.uuid == id) ts ≡ true)
      → All (λ t. owner_exists t.owner_id db.users ≡ true) ts
      → IsConsistent (record db { tokens = ts })
  tokens-IsConsistent ts grow owners = record {
    sessions_users = v.sessions_users;
    tokens_owners = owners;
    requests_tokens = All-map _ _ (λ r. grow r.token_id) db.requests v.requests_tokens;
    grants_tokens = All-map _ _ (λ g. grow g.token_id) db.hook_grants v.grants_tokens;
    grants_users = v.grants_users;
    grants_granters = v.grants_granters;
    actions_tokens = All-map _ _ (λ a. grow a.token_id) db.actions v.actions_tokens;
    logs_actions = v.logs_actions;
    logs_requests = v.logs_requests;
  }

  pub requests-IsConsistent :
      (rs : List Request)
      → ((id : String) → request_exists id db ≡ true → any (λ r. r.uuid == id) rs ≡ true)
      → All (λ r. token_exists r.token_id db ≡ true) rs
      → IsConsistent (record db { requests = rs })
  requests-IsConsistent rs grow parents = record {
    sessions_users = v.sessions_users;
    tokens_owners = v.tokens_owners;
    requests_tokens = parents;
    grants_tokens = v.grants_tokens;
    grants_users = v.grants_users;
    grants_granters = v.grants_granters;
    actions_tokens = v.actions_tokens;
    logs_actions = v.logs_actions;
    logs_requests = All-map _ _ (λ l. grow l.request_id) db.action_logs v.logs_requests;
  }

  pub actions-IsConsistent :
      (as' : List Action)
      → ((id : String) → action_exists id db ≡ true → any (λ a. a.uuid == id) as' ≡ true)
      → All (λ a. token_exists a.token_id db ≡ true) as'
      → IsConsistent (record db { actions = as' })
  actions-IsConsistent as' grow parents = record {
    sessions_users = v.sessions_users;
    tokens_owners = v.tokens_owners;
    requests_tokens = v.requests_tokens;
    grants_tokens = v.grants_tokens;
    grants_users = v.grants_users;
    grants_granters = v.grants_granters;
    actions_tokens = parents;
    logs_actions = All-map _ _ (λ l. grow l.action_id) db.action_logs v.logs_actions;
    logs_requests = v.logs_requests;
  }

  pub sessions-IsConsistent :
      (ss : List Session)
      → All (λ s. user_exists s.user_id db ≡ true) ss
      → IsConsistent (record db { sessions = ss })
  sessions-IsConsistent ss parents = record {
    sessions_users = parents;
    tokens_owners = v.tokens_owners;
    requests_tokens = v.requests_tokens;
    grants_tokens = v.grants_tokens;
    grants_users = v.grants_users;
    grants_granters = v.grants_granters;
    actions_tokens = v.actions_tokens;
    logs_actions = v.logs_actions;
    logs_requests = v.logs_requests;
  }

  pub grants-IsConsistent :
      (gs : List HookGrant)
      → All (λ g. token_exists g.token_id db ≡ true) gs
      → All (λ g. user_exists g.user_id db ≡ true) gs
      → All (λ g. user_exists g.granted_by db ≡ true) gs
      → IsConsistent (record db { hook_grants = gs })
  grants-IsConsistent gs ts us gr = record {
    sessions_users = v.sessions_users;
    tokens_owners = v.tokens_owners;
    requests_tokens = v.requests_tokens;
    grants_tokens = ts;
    grants_users = us;
    grants_granters = gr;
    actions_tokens = v.actions_tokens;
    logs_actions = v.logs_actions;
    logs_requests = v.logs_requests;
  }

  pub logs-IsConsistent :
      (ls : List ActionLog)
      → All (λ l. action_exists l.action_id db ≡ true) ls
      → All (λ l. request_exists l.request_id db ≡ true) ls
      → IsConsistent (record db { action_logs = ls })
  logs-IsConsistent ls as' rs = record {
    sessions_users = v.sessions_users;
    tokens_owners = v.tokens_owners;
    requests_tokens = v.requests_tokens;
    grants_tokens = v.grants_tokens;
    grants_users = v.grants_users;
    grants_granters = v.grants_granters;
    actions_tokens = v.actions_tokens;
    logs_actions = as';
    logs_requests = rs;
  }

  pub limits-IsConsistent : (ls : List RateLimit) → IsConsistent (record db { rate_limits = ls })
  limits-IsConsistent ls = record {
    sessions_users = v.sessions_users;
    tokens_owners = v.tokens_owners;
    requests_tokens = v.requests_tokens;
    grants_tokens = v.grants_tokens;
    grants_users = v.grants_users;
    grants_granters = v.grants_granters;
    actions_tokens = v.actions_tokens;
    logs_actions = v.logs_actions;
    logs_requests = v.logs_requests;
  }
