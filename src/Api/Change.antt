-- ===== src/Api/Change.antt =====
-- internal/api/tokens.go: the handlers that change and delete a hook, and what events.go publishes.
use hookwatch.Api.Answer.{Answer, HookCall, Refusal, Server, open_hook, refused, replied}
use hookwatch.Api.Manage.{ShownToken, TokenLibs, WriteCall}
use hookwatch.Api.Payload.{TokenPayload, apply_token_payload, validated}
use hookwatch.Api.Secret.{
  SecretResult, receive_mode_private, reconcile_receive_secret, rotate_receive_secret,
}
use hookwatch.Authz.{delete, edit}
use hookwatch.Hub.{Hub, publish}
use hookwatch.Models.{Token, User}
use hookwatch.Prelude.{
  Bool, Option, Result, String, err, if◌then◌else◌, is_some, nat_eq, none, not, ok, some, string_eq,
  ◌==◌,
}
use hookwatch.Store.Config.{add_duration}
use hookwatch.Store.Db.{Db, StoreError, not_found}
use hookwatch.Store.Tokens.{delete_token, update_token}

-- The answer, the tables and the hub that a handler leaves.
abbrev pub Handled : Type 0 → Type 0
Handled A = Answer A × Db × Hub

unfoldable pub publish_token : String → String → String → Option String → Hub → Hub
publish_token type token_id event_id none hub = hub
publish_token type token_id event_id (some payload) hub =
    publish token_id (record { id = event_id; type = type; payload = payload }) hub

-- UpdateToken and publishTokenUpdated, the end of two handlers.
unfoldable pub updated :
    TokenLibs → WriteCall → Option String → Result StoreError Token × Db → Hub → Handled ShownToken
unfolding publish_token
updated lib call secret (err not_found, db) hub = (refused (404, "token not found"), db, hub)
updated lib call secret (err e, db) hub = (refused (500, "failed to update token"), db, hub)
updated lib call secret (ok token, db) hub = (
  replied 200 (token, secret),
  db,
  publish_token "token.updated" token.uuid call.event_id (lib.encode_updated token) hub,
)

unfoldable pub update_reconciled :
    TokenLibs → Server → WriteCall → SecretResult → Db → Hub → Handled ShownToken
unfolding updated
update_reconciled lib server call (err e, token) db hub =
    (refused (500, "failed to generate receive secret"), db, hub)
update_reconciled lib server call (ok secret, token) db hub =
    let expires = if token.persistent then 0 else add_duration call.now server.cfg.token_ttl in
    updated lib call secret
      (update_token call.write_fails server.cfg call.now
        (record token { updated_at = call.now; expires_at = expires }) db)
      hub

unfoldable pub update_validated :
    TokenLibs → Server → WriteCall → Bool → Result String Token → Db → Hub → Handled ShownToken
unfolding update_reconciled
update_validated lib server call was_private (err message) db hub =
    (refused (400, message), db, hub)
update_validated lib server call was_private (ok token) db hub =
    update_reconciled lib server call
      (reconcile_receive_secret lib.hash call.generated token was_private) db hub

unfoldable pub update_opened :
    TokenLibs
    → Server
    → WriteCall
    → Option User
    → Option TokenPayload
    → Result Refusal Token
    → Db
    → Hub
    → Handled ShownToken
unfolding update_validated
update_opened lib server call user payload (err r) db hub = (refused r, db, hub)
update_opened lib server call user none (ok token) db hub =
    (refused (400, "invalid JSON body"), db, hub)
update_opened lib server call user (some payload) (ok token) db hub =
    update_validated lib server call (token.receive_mode == receive_mode_private)
      (validated server.auth_mode user (is_some payload.persistent)
        (apply_token_payload token payload))
      db hub

unfoldable pub handle_update :
    TokenLibs → Server → HookCall → WriteCall → Option TokenPayload → Db → Hub → Handled ShownToken
unfolding update_opened
handle_update lib server hook_call call payload db hub =
    update_opened lib server call hook_call.user payload (open_hook server hook_call edit db) db hub

unfoldable pub deleted :
    TokenLibs → WriteCall → String → Result StoreError (Unit {0}) × Db → Hub → Handled (Unit {0})
unfolding publish_token
deleted lib call id (err not_found, db) hub = (refused (404, "token not found"), db, hub)
deleted lib call id (err e, db) hub = (refused (500, "failed to delete token"), db, hub)
deleted lib call id (ok u, db) hub =
    (replied 204 tt, db, publish_token "token.deleted" id call.event_id (lib.encode_deleted id) hub)

unfoldable pub delete_opened :
    TokenLibs → WriteCall → String → Result Refusal Token → Db → Hub → Handled (Unit {0})
unfolding deleted
delete_opened lib call id (err r) db hub = (refused r, db, hub)
delete_opened lib call id (ok token) db hub =
    deleted lib call id (delete_token call.write_fails id db) hub

unfoldable pub handle_delete :
    TokenLibs → Server → HookCall → WriteCall → Db → Hub → Handled (Unit {0})
unfolding delete_opened
handle_delete lib server hook_call call db hub =
    delete_opened lib call hook_call.token_id (open_hook server hook_call delete db) db hub

unfoldable pub rotate_rotated :
    TokenLibs → Server → WriteCall → SecretResult → Db → Hub → Handled ShownToken
unfolding updated
rotate_rotated lib server call (err e, token) db hub =
    (refused (500, "failed to rotate receive secret"), db, hub)
rotate_rotated lib server call (ok secret, token) db hub =
    let expires =
      if token.persistent then token.expires_at else add_duration call.now server.cfg.token_ttl in
    updated lib call secret
      (update_token call.write_fails server.cfg call.now
        (record token { updated_at = call.now; expires_at = expires }) db)
      hub

unfoldable pub rotate_opened :
    TokenLibs → Server → WriteCall → Result Refusal Token → Db → Hub → Handled ShownToken
unfolding rotate_rotated
rotate_opened lib server call (err r) db hub = (refused r, db, hub)
rotate_opened lib server call (ok token) db hub =
    if not (token.receive_mode == receive_mode_private)
    then (refused (400, "receive_mode must be private"), db, hub)
    else rotate_rotated lib server call (rotate_receive_secret lib.hash call.generated token) db hub

-- The handler rotateReceiveSecret; it encodes the secret and its prefix.
unfoldable pub handle_rotate :
    TokenLibs → Server → HookCall → WriteCall → Db → Hub → Handled ShownToken
unfolding rotate_opened
handle_rotate lib server hook_call call db hub =
    rotate_opened lib server call (open_hook server hook_call edit db) db hub
