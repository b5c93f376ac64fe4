-- ===== src/Store/Consistency/Calls.antt =====
-- The store as a whole: every operation that writes, with its arguments, and any history of them.
use hookwatch.Models.{Action, ActionLog, HookGrant, Request, Session, Time, Token, User}
use hookwatch.Prelude.{Bool, List, String, [], ℕ, ◌∷◌}
use hookwatch.Store.ActionLogs.{create_action_log, update_action_log}
use hookwatch.Store.Actions.{create_action, delete_action, reorder_actions, update_action}
use hookwatch.Store.Config.{Config}
use hookwatch.Store.Consistency.{IsConsistent}
use hookwatch.Store.Consistency.People.{
  create_user-IsConsistent, delete_user-IsConsistent, update_user-IsConsistent,
}
use hookwatch.Store.Consistency.Pipelines.{
  cleanup_rate_limits-IsConsistent, create_action-IsConsistent, create_action_log-IsConsistent,
  delete_action-IsConsistent, increment_rate_limit-IsConsistent, reorder_actions-IsConsistent,
  update_action-IsConsistent, update_action_log-IsConsistent,
}
use hookwatch.Store.Consistency.Rows.{
  create_hook_grant-IsConsistent, create_request-IsConsistent, create_session-IsConsistent,
  delete_all_requests_by_token-IsConsistent, delete_grants_where-IsConsistent,
  delete_request-IsConsistent, delete_sessions_where-IsConsistent,
}
use hookwatch.Store.Consistency.Updates.{
  create_token-IsConsistent, delete_expired_tokens-IsConsistent, delete_token-IsConsistent,
  touch_token_expiry-IsConsistent, update_token-IsConsistent,
}
use hookwatch.Store.Db.{Db}
use hookwatch.Store.Grants.{
  create_hook_grant, delete_hook_grant, delete_hook_grant_by_token_and_user,
}
use hookwatch.Store.Order.{Transaction}
use hookwatch.Store.RateLimits.{cleanup_rate_limits, increment_rate_limit}
use hookwatch.Store.Requests.{create_request, delete_all_requests_by_token, delete_request}
use hookwatch.Store.Sessions.{
  create_session, delete_expired_sessions, delete_session, delete_user_sessions,
}
use hookwatch.Store.Tokens.{
  create_token, delete_expired_tokens, delete_token, touch_token_expiry, update_token,
}
use hookwatch.Store.Users.{create_user, delete_user, update_user}

pub data Call : Type 0 where
  creates_user updates_user : Bool → User → Call
  deletes_user : Bool → String → Call
  creates_session : Bool → Session → Call
  deletes_session deletes_user_sessions : Bool → String → Call
  deletes_expired_sessions : Bool → Time → Call
  creates_token updates_token : Bool → Time → Token → Call
  touches_token : Bool → String → Time → Call
  deletes_token : Bool → String → Call
  deletes_expired_tokens : Bool → Time → Call
  creates_request : Bool → Bool → Request → Call
  deletes_request : Bool → String → String → Call
  deletes_all_requests : Bool → String → Call
  creates_grant : Bool → HookGrant → Call
  deletes_grant : Bool → String → Call
  deletes_grant_of : Bool → String → String → Call
  creates_action updates_action : Bool → Action → Call
  deletes_action : Bool → String → String → Call
  reorders_actions : Bool → (ℕ → Bool) → String → List String → Call
  creates_log updates_log : Bool → ActionLog → Call
  counts_request : Bool → Bool → String → String → Time → Call
  cleans_limits : Bool → Time → Call

-- The tables after a call, whether it succeeds or fails.
pub perform : Config → Transaction → Call → Db → Db
perform cfg tx (creates_user f u) db = (create_user f u db).1
perform cfg tx (updates_user f u) db = (update_user f u db).1
perform cfg tx (deletes_user f id) db = (delete_user f id db).1
perform cfg tx (creates_session f s) db = (create_session f s db).1
perform cfg tx (deletes_session f id) db = (delete_session f id db).1
perform cfg tx (deletes_user_sessions f id) db = (delete_user_sessions f id db).1
perform cfg tx (deletes_expired_sessions f now) db = (delete_expired_sessions f now db).1
perform cfg tx (creates_token f now t) db = (create_token f cfg now t db).1
perform cfg tx (updates_token f now t) db = (update_token f cfg now t db).1
perform cfg tx (touches_token f id now) db = (touch_token_expiry f cfg id now db).1
perform cfg tx (deletes_token f id) db = (delete_token f id db).1
perform cfg tx (deletes_expired_tokens f now) db = (delete_expired_tokens f now db).1
perform cfg tx (creates_request f q r) db = (create_request f q r db).1
perform cfg tx (deletes_request f t id) db = (delete_request f t id db).1
perform cfg tx (deletes_all_requests f t) db = (delete_all_requests_by_token f t db).1
perform cfg tx (creates_grant f g) db = (create_hook_grant f g db).1
perform cfg tx (deletes_grant f id) db = (delete_hook_grant f id db).1
perform cfg tx (deletes_grant_of f t u) db = (delete_hook_grant_by_token_and_user f t u db).1
perform cfg tx (creates_action f a) db = (create_action f a db).1
perform cfg tx (updates_action f a) db = (update_action f a db).1
perform cfg tx (deletes_action f t id) db = (delete_action f t id db).1
perform cfg tx (reorders_actions b f t ids) db = (reorder_actions tx b f t ids db).1
perform cfg tx (creates_log f l) db = (create_action_log f l db).1
perform cfg tx (updates_log f l) db = (update_action_log f l db).1
perform cfg tx (counts_request f q ip t w) db = (increment_rate_limit f q ip t w db).1
perform cfg tx (cleans_limits f before) db = (cleanup_rate_limits f before db).1

pub perform_all : Config → Transaction → List Call → Db → Db
perform_all cfg tx [] db = db
perform_all cfg tx (c ∷ cs) db = perform_all cfg tx cs (perform cfg tx c db)

pub empty_db : Db
empty_db = record {
  users = [];
  sessions = [];
  tokens = [];
  requests = [];
  hook_grants = [];
  actions = [];
  action_logs = [];
  rate_limits = [];
}

module _ (cfg : Config) (tx : Transaction) where
  perform-IsConsistent : (c : Call) {db : Db} → IsConsistent db → IsConsistent (perform cfg tx c db)
  unfolding perform delete_hook_grant delete_hook_grant_by_token_and_user delete_session
      delete_user_sessions delete_expired_sessions
  perform-IsConsistent (creates_user f u) v = create_user-IsConsistent v f u
  perform-IsConsistent (updates_user f u) v = update_user-IsConsistent v f u
  perform-IsConsistent (deletes_user f id) v = delete_user-IsConsistent v f id
  perform-IsConsistent (creates_session f s) v = create_session-IsConsistent v f s
  perform-IsConsistent (deletes_session f id) v = delete_sessions_where-IsConsistent v f _
  perform-IsConsistent (deletes_user_sessions f id) v = delete_sessions_where-IsConsistent v f _
  perform-IsConsistent (deletes_expired_sessions f now) v = delete_sessions_where-IsConsistent v f _
  perform-IsConsistent (creates_token f now t) v = create_token-IsConsistent v f cfg now t
  perform-IsConsistent (updates_token f now t) v = update_token-IsConsistent v f cfg now t
  perform-IsConsistent (touches_token f id now) v = touch_token_expiry-IsConsistent v f cfg id now
  perform-IsConsistent (deletes_token f id) v = delete_token-IsConsistent v f id
  perform-IsConsistent (deletes_expired_tokens f now) v = delete_expired_tokens-IsConsistent v f now
  perform-IsConsistent (creates_request f q r) v = create_request-IsConsistent v f q r
  perform-IsConsistent (deletes_request f t id) v = delete_request-IsConsistent v f t id
  perform-IsConsistent (deletes_all_requests f t) v =
      delete_all_requests_by_token-IsConsistent v f t
  perform-IsConsistent (creates_grant f g) v = create_hook_grant-IsConsistent v f g
  perform-IsConsistent (deletes_grant f id) v = delete_grants_where-IsConsistent v f _
  perform-IsConsistent (deletes_grant_of f t u) v = delete_grants_where-IsConsistent v f _
  perform-IsConsistent (creates_action f a) v = create_action-IsConsistent v f a
  perform-IsConsistent (updates_action f a) v = update_action-IsConsistent v f a
  perform-IsConsistent (deletes_action f t id) v = delete_action-IsConsistent v f t id
  perform-IsConsistent (reorders_actions b f t ids) v = reorder_actions-IsConsistent v tx b f t ids
  perform-IsConsistent (creates_log f l) v = create_action_log-IsConsistent v f l
  perform-IsConsistent (updates_log f l) v = update_action_log-IsConsistent v f l
  perform-IsConsistent (counts_request f q ip t w) v =
      increment_rate_limit-IsConsistent v f q ip t w
  perform-IsConsistent (cleans_limits f before) v = cleanup_rate_limits-IsConsistent v f before

  perform_all-keeps :
      (cs : List Call) {db : Db} → IsConsistent db → IsConsistent (perform_all cfg tx cs db)
  unfolding perform_all
  perform_all-keeps [] v = v
  perform_all-keeps (c ∷ cs) v = perform_all-keeps cs (perform-IsConsistent c v)

  -- After any sequence of store operations on empty tables, failing ones included, every reference
  -- of a row (session to user, token to owner, request, grant and action to token, grant to both of
  -- its users, log to action and request) leads to a row that is there.
  pub perform_all-IsConsistent : (cs : List Call) → IsConsistent (perform_all cfg tx cs empty_db)
  unfolding empty_db
  perform_all-IsConsistent cs = perform_all-keeps cs (record {
    sessions_users = tt;
    tokens_owners = tt;
    requests_tokens = tt;
    grants_tokens = tt;
    grants_users = tt;
    grants_granters = tt;
    actions_tokens = tt;
    logs_actions = tt;
    logs_requests = tt;
  })
