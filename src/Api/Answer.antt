-- ===== src/Api/Answer.antt =====
-- internal/api: the answers of the handlers, and how they open a hook: its load, without moving its
-- expiry, and the check of the policy.
use hookwatch.Api.Expiry.{LoadError, load_active_token, stored, token_expired}
use hookwatch.Authz.{HookAction, can_access_token, view}
use hookwatch.Models.{Time, Token, User}
use hookwatch.Prelude.{
  Bool, Option, Result, String, err, false, if◌then◌else◌, nat_eq, ok, string_eq, to_lower,
  trim_space, ℕ, ◌==◌,
}
use hookwatch.Store.Config.{Config}
use hookwatch.Store.Db.{Db, not_found}

-- A status and the message of writeError.
abbrev pub Refusal : Type 0
Refusal = ℕ × String

-- writeError, or an answer with a status and what is encoded of it.
pub data Answer (A : Type 0) : Type 0 where
  refused : Refusal → Answer A
  replied : ℕ → A → Answer A

-- The server: AUTH_MODE as it was normalised, and the settings of the store.
pub record Server : Type 0 where
  pub auth_mode : String
  pub cfg : Config

-- normalizedAuthMode
unfoldable pub normalized_auth_mode : String → String
normalized_auth_mode mode = if trim_space mode == "" then "none" else to_lower (trim_space mode)

-- A request for a hook: who asks, the clock at the load, and which queries fail.
pub record HookCall : Type 0 where
  pub token_id : String
  pub user : Option User
  pub load_now : Time
  pub get_fails : Bool
  pub grant_fails : Bool

unfoldable pub load_refusal : LoadError → Refusal
load_refusal (stored not_found) = (404, "token not found")
load_refusal (stored e) = (500, "failed to get token")
load_refusal token_expired = (410, "token expired")

-- writePrivateViewModeDenied hides the hook; writeTokenPermissionDenied does not.
unfoldable pub denial : HookAction → Refusal
denial view = (404, "token not found")
denial action = (403, "insufficient permissions")

unfoldable pub admit :
    Server → HookCall → HookAction → Db → Result LoadError Token → Result Refusal Token
unfolding load_refusal denial
admit server call action db (err e) = err (load_refusal e)
admit server call action db (ok token) =
    if can_access_token call.grant_fails server.auth_mode call.user token action db
    then ok token
    else err (denial action)

-- The beginning of a handler; a load that does not touch leaves the tables as they are.
unfoldable pub open_hook : Server → HookCall → HookAction → Db → Result Refusal Token
unfolding admit
open_hook server call action db =
    admit server call action db
      (load_active_token call.get_fails false server.cfg call.load_now call.token_id false db).0
