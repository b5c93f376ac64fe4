-- ===== src/Store/Db.antt =====
-- internal/store/store.go, the schema of `migrate`: the tables as lists of rows, and what the
-- foreign keys that it declares do when a parent row goes (`prepareConn` turns them on).
-- A stored time is the time that its text denotes: whole seconds, and 0 for a NULL.
use hookwatch.Models.{Action, ActionLog, HookGrant, Request, Session, Time, Token, User}
use hookwatch.Prelude.{
  Bool, List, Option, Result, String, any, err, nat_eq, none, not, ok, select, some, string_eq,
  true, ℕ, ◌&&◌, ◌*◌, ◌/◌, ◌==◌,
}

-- The errors that the store returns. `driver` is any failure of SQLite or of the connection pool,
-- `missing_action` the error that only ReorderActions makes.
pub data StoreError : Type 0 where
  not_found quota_exceeded unique_violation foreign_key_violation missing_action driver : StoreError

-- A row of rate_limits.
pub record RateLimit : Type 0 where
  pub ip : String
  pub token_id : String
  pub window_start : Time
  pub request_count : ℕ

pub record Db : Type 0 where
  pub users : List User
  pub sessions : List Session
  pub tokens : List Token
  pub requests : List Request
  pub hook_grants : List HookGrant
  pub actions : List Action
  pub action_logs : List ActionLog
  pub rate_limits : List RateLimit

-- One second.
abbrev pub second : Time
second = 1_000_000_000

-- The text of `formatTime` has no fraction of a second, and `parseTime` reads it back.
unfoldable pub format_time : Time → Time
format_time t = t / second * second

-- The result of a statement that writes.
abbrev pub Write : Type 0 → Type 0
Write A = Db → Result StoreError A × Db

-- A query for one row: no row is `ErrNotFound`.
abbrev pub or_not_found : {A : Type 0} → Option A → Result StoreError A
or_not_found none = err not_found
or_not_found (some a) = ok a

abbrev pub user_exists : String → Db → Bool
user_exists id db = any (λ u. u.id == id) db.users

abbrev pub token_exists : String → Db → Bool
token_exists id db = any (λ t. t.uuid == id) db.tokens

abbrev pub request_exists : String → Db → Bool
request_exists id db = any (λ r. r.uuid == id) db.requests

abbrev pub action_exists : String → Db → Bool
action_exists id db = any (λ a. a.uuid == id) db.actions

-- A key that may be NULL refers to a user.
abbrev pub owner_exists : Option String → List User → Bool
owner_exists none users = true
owner_exists (some id) users = any (λ u. u.id == id) users

-- DELETE FROM requests WHERE p, with the cascade to action_logs.
unfoldable pub delete_requests_where : (Request → Bool) → Db → Db
delete_requests_where p db = record db {
  requests = select (λ r. not (p r)) db.requests;
  action_logs =
      select (λ l. not (any (λ r. p r && r.uuid == l.request_id) db.requests)) db.action_logs;
}

-- DELETE FROM actions WHERE p, with the cascade to action_logs.
unfoldable pub delete_actions_where : (Action → Bool) → Db → Db
delete_actions_where p db = record db {
  actions = select (λ a. not (p a)) db.actions;
  action_logs =
      select (λ l. not (any (λ a. p a && a.uuid == l.action_id) db.actions)) db.action_logs;
}

-- Whether a row that refers to `id` loses its token.
abbrev pub orphaned : (Token → Bool) → Db → String → Bool
orphaned p db id = any (λ t. p t && t.uuid == id) db.tokens

-- DELETE FROM tokens WHERE p, with the cascades to requests, hook_grants, actions and action_logs.
unfoldable pub delete_tokens_where : (Token → Bool) → Db → Db
unfolding delete_requests_where delete_actions_where
delete_tokens_where p db =
    let db' =
      delete_actions_where (λ a. orphaned p db a.token_id)
        (delete_requests_where (λ r. orphaned p db r.token_id) db) in
    record db' {
      tokens = select (λ t. not (p t)) db.tokens;
      hook_grants = select (λ g. not (orphaned p db g.token_id)) db.hook_grants;
    }
