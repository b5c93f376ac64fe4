-- ===== src/Api/Manage.antt =====
-- internal/api/tokens.go: the handlers that create and show a hook.
use hookwatch.Api.Answer.{Answer, HookCall, Refusal, Server, open_hook, refused, replied}
use hookwatch.Api.Expiry.{refresh_token_expiry}
use hookwatch.Api.Payload.{TokenPayload, apply_token_payload, validated}
use hookwatch.Api.Secret.{SecretResult, reconcile_receive_secret}
use hookwatch.Authz.{view}
use hookwatch.Models.{Time, Token, User}
use hookwatch.Prelude.{Bool, Option, Result, String, err, false, is_some, none, ok, pos, some}
use hookwatch.Store.Config.{default_max_requests}
use hookwatch.Store.Db.{Db, StoreError}
use hookwatch.Store.Tokens.{create_token}

-- What is outside: `hash` as in secret.go, and json.Marshal of the events' payloads.
pub record TokenLibs : Type 0 where
  pub hash : String → String
  pub encode_updated : Token → Option String
  pub encode_deleted : String → Option String

-- A request that writes a hook: the clock, the identifiers, the text that generateReceiveSecret
-- draws, and which writes fail.
pub record WriteCall : Type 0 where
  pub now : Time
  pub new_id : String
  pub event_id : String
  pub generated : Option String
  pub write_fails : Bool

-- A token and the secret to show, as toTokenResponse encodes them.
abbrev pub ShownToken : Type 0
ShownToken = Token × Option String

-- The fields that createToken starts from.
unfoldable pub new_token : String → Time → Token
new_token id now = record {
  uuid = id;
  owner_id = none;
  receive_mode = "public";
  view_mode = "public";
  persistent = false;
  receive_secret_hash = none;
  receive_secret_prefix = none;
  signature_provider = "";
  signature_secret = none;
  default_status = pos 200;
  default_content = "";
  default_content_type = "text/plain";
  max_requests = default_max_requests;
  timeout = pos 0;
  cors = false;
  rate_limit = pos 0;
  created_at = now;
  updated_at = now;
  expires_at = 0;
}

-- The hook belongs to the user who creates it.
unfoldable pub owned_by : Option User → Token → Token
owned_by none token = token
owned_by (some user) token = record token { owner_id = some user.id }

unfoldable pub created : Option String → Result StoreError Token × Db → Answer ShownToken × Db
created secret (err e, db) = (refused (500, "failed to create token"), db)
created secret (ok token, db) = (replied 201 (token, secret), db)

unfoldable pub create_reconciled : Server → WriteCall → SecretResult → Db → Answer ShownToken × Db
unfolding created
create_reconciled server call (err e, token) db =
    (refused (500, "failed to generate receive secret"), db)
create_reconciled server call (ok secret, token) db =
    created secret (create_token call.write_fails server.cfg call.now token db)

unfoldable pub create_validated :
    TokenLibs → Server → WriteCall → Result String Token → Db → Answer ShownToken × Db
unfolding create_reconciled
create_validated lib server call (err message) db = (refused (400, message), db)
create_validated lib server call (ok token) db =
    create_reconciled server call (reconcile_receive_secret lib.hash call.generated token false) db

-- `payload` is `none` where the body is no JSON of a tokenPayload.
unfoldable pub handle_create :
    TokenLibs → Server → WriteCall → Option User → Option TokenPayload → Db → Answer ShownToken × Db
unfolding create_validated new_token owned_by
handle_create lib server call user none db = (refused (400, "invalid JSON body"), db)
handle_create lib server call user (some payload) db =
    create_validated lib server call
      (validated server.auth_mode user (is_some payload.persistent)
        (owned_by user (apply_token_payload (new_token call.new_id call.now) payload)))
      db

unfoldable pub shown : Result StoreError Token × Db → Answer ShownToken × Db
shown (err e, db) = (refused (500, "failed to refresh token expiry"), db)
shown (ok token, db) = (replied 200 (token, none), db)

unfoldable pub show_opened :
    Server → Bool → Time → Result Refusal Token → Db → Answer ShownToken × Db
unfolding shown
show_opened server fails now (err r) db = (refused r, db)
show_opened server fails now (ok token) db =
    shown (refresh_token_expiry fails server.cfg now token db)

-- getToken
unfoldable pub handle_get : Server → HookCall → Bool → Time → Db → Answer ShownToken × Db
unfolding show_opened
handle_get server call touch_fails now db =
    show_opened server touch_fails now (open_hook server call view db) db
