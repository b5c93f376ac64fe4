-- ===== src/Api/Upkeep/Serving.antt =====
-- internal/api/tokens.go: the settings of the stored hooks over sequences of the handlers' calls.
use hookwatch.Api.Answer.{HookCall, Refusal, Server}
use hookwatch.Api.Change.{
  Handled, delete_opened, handle_delete, handle_rotate, handle_update, rotate_opened,
  rotate_rotated, update_opened, update_reconciled, update_validated,
}
use hookwatch.Api.Expiry.{refresh_token_expiry}
use hookwatch.Api.Manage.{
  TokenLibs, WriteCall, create_reconciled, create_validated, handle_create, handle_get, show_opened,
}
use hookwatch.Api.Payload.{TokenPayload}
use hookwatch.Api.Secret.{SecretResult}
use hookwatch.Api.Settings.{Gives, IsConfigured, IsValid, validated-IsValid}
use hookwatch.Api.Upkeep.{
  AllConfigured, create_token-AllConfigured, open_hook-IsConfigured, update_token-AllConfigured,
}
use hookwatch.Api.Upkeep.Steps.{
  SecretDone, created_as, delete_token-AllConfigured, deleted-db, reconcile-Done,
  refresh-AllConfigured, rotate-Done, shown_as, updated-db,
}
use hookwatch.Authz.{edit}
use hookwatch.Hub.{Hub}
use hookwatch.Models.{Time, Token, User}
use hookwatch.Prelude.{
  Bool, Bool-cases, List, Option, Result, String, [], err, false, inl, inr, is_some, nat_eq, none,
  not, ok, some, string_eq, subst, sym, ◌==◌, ◌∷◌,
}
use hookwatch.Store.Db.{Db, delete_tokens_where}
use hookwatch.Store.Tokens.{create_token, delete_token}

-- One request to a handler of hooks.
pub data HookRequest : Type 0 where
  creates : WriteCall → Option User → Option TokenPayload → HookRequest
  shows : HookCall → Bool → Time → HookRequest
  updates : HookCall → WriteCall → Option TokenPayload → HookRequest
  deletes : HookCall → WriteCall → HookRequest
  rotates : HookCall → WriteCall → HookRequest

abbrev left : {A : Type 0} → Handled A → Db × Hub
left (answer, db, hub) = (db, hub)

-- The tables and the hub after a request.
abbrev pub serve : TokenLibs → Server → HookRequest → Db × Hub → Db × Hub
serve lib server (creates call user payload) (db, hub) =
    ((handle_create lib server call user payload db).1, hub)
serve lib server (shows call fails now) (db, hub) = ((handle_get server call fails now db).1, hub)
serve lib server (updates hook_call call payload) (db, hub) =
    left (handle_update lib server hook_call call payload db hub)
serve lib server (deletes hook_call call) (db, hub) =
    left (handle_delete lib server hook_call call db hub)
serve lib server (rotates hook_call call) (db, hub) =
    left (handle_rotate lib server hook_call call db hub)

abbrev pub serve_all : TokenLibs → Server → List HookRequest → Db × Hub → Db × Hub
serve_all lib server [] state = state
serve_all lib server (r ∷ rs) state = serve_all lib server rs (serve lib server r state)

module _ (lib : TokenLibs) (server : Server) where
  create_reconciled-AllConfigured :
      (call : WriteCall) (r : SecretResult) (db : Db)
      → SecretDone r
      → AllConfigured db
      → AllConfigured (create_reconciled server call r db).1
  unfolding create_reconciled
  create_reconciled-AllConfigured call (err e, t) db d h = h
  create_reconciled-AllConfigured call (ok s, t) db d h =
      subst AllConfigured
        (sym (created_as s (create_token call.write_fails server.cfg call.now t db)))
        (create_token-AllConfigured call.write_fails server.cfg call.now t db d h)

  create_validated-AllConfigured :
      (call : WriteCall) (r : Result String Token) (db : Db)
      → Gives IsValid r
      → AllConfigured db
      → AllConfigured (create_validated lib server call r db).1
  unfolding create_validated
  create_validated-AllConfigured call (err e) db v h = h
  create_validated-AllConfigured call (ok t) db v h =
      create_reconciled-AllConfigured call _ db (reconcile-Done lib.hash call.generated t false v) h

  handle_create-AllConfigured :
      (call : WriteCall) (user : Option User) (payload : Option TokenPayload) (db : Db)
      → AllConfigured db
      → AllConfigured (handle_create lib server call user payload db).1
  unfolding handle_create
  handle_create-AllConfigured call user none db h = h
  handle_create-AllConfigured call user (some payload) db h =
      create_validated-AllConfigured call _ db
        (validated-IsValid server.auth_mode user (is_some payload.persistent) _) h

  update_reconciled-AllConfigured :
      (call : WriteCall) (r : SecretResult) (db : Db) (hub : Hub)
      → SecretDone r
      → AllConfigured db
      → AllConfigured (update_reconciled lib server call r db hub).1
  unfolding update_reconciled
  update_reconciled-AllConfigured call (err e, t) db hub d h = h
  update_reconciled-AllConfigured call (ok s, t) db hub d h =
      subst AllConfigured (sym (updated-db lib call s _ hub))
        (update_token-AllConfigured call.write_fails server.cfg call.now _ db d h)

  update_validated-AllConfigured :
      (call : WriteCall) (was_private : Bool) (r : Result String Token) (db : Db) (hub : Hub)
      → Gives IsValid r
      → AllConfigured db
      → AllConfigured (update_validated lib server call was_private r db hub).1
  unfolding update_validated
  update_validated-AllConfigured call was_private (err e) db hub v h = h
  update_validated-AllConfigured call was_private (ok t) db hub v h =
      update_reconciled-AllConfigured call _ db hub
        (reconcile-Done lib.hash call.generated t was_private v) h

  update_opened-AllConfigured :
      (call : WriteCall) (user : Option User) (payload : Option TokenPayload)
      (r : Result Refusal Token) (db : Db) (hub : Hub)
      → AllConfigured db
      → AllConfigured (update_opened lib server call user payload r db hub).1
  unfolding update_opened
  update_opened-AllConfigured call user payload (err e) db hub h = h
  update_opened-AllConfigured call user none (ok t) db hub h = h
  update_opened-AllConfigured call user (some payload) (ok t) db hub h =
      update_validated-AllConfigured call _ _ db hub
        (validated-IsValid server.auth_mode user (is_some payload.persistent) _) h

  rotate_rotated-AllConfigured :
      (call : WriteCall) (r : SecretResult) (db : Db) (hub : Hub)
      → SecretDone r
      → AllConfigured db
      → AllConfigured (rotate_rotated lib server call r db hub).1
  unfolding rotate_rotated
  rotate_rotated-AllConfigured call (err e, t) db hub d h = h
  rotate_rotated-AllConfigured call (ok s, t) db hub d h =
      subst AllConfigured (sym (updated-db lib call s _ hub))
        (update_token-AllConfigured call.write_fails server.cfg call.now _ db d h)

  rotate_opened-AllConfigured :
      (call : WriteCall) (r : Result Refusal Token) (db : Db) (hub : Hub)
      → Gives IsConfigured r
      → AllConfigured db
      → AllConfigured (rotate_opened lib server call r db hub).1
  unfolding rotate_opened
  rotate_opened-AllConfigured call (err e) db hub c h = h
  rotate_opened-AllConfigured call (ok t) db hub c h =
      elim (Bool-cases (not (t.receive_mode == "private"))) [
        | inl n ↦ rw n h
        | inr n ↦ rw n (
            rotate_rotated-AllConfigured call _ db hub (rotate-Done lib.hash call.generated t c.0)
              h)
      ]

  delete_opened-AllConfigured :
      (call : WriteCall) (id : String) (r : Result Refusal Token) (db : Db) (hub : Hub)
      → AllConfigured db
      → AllConfigured (delete_opened lib call id r db hub).1
  unfolding delete_opened delete_token delete_tokens_where
  delete_opened-AllConfigured call id (err e) db hub h = h
  delete_opened-AllConfigured call id (ok t) db hub h =
      subst AllConfigured (sym (deleted-db lib call id (delete_token call.write_fails id db) hub))
        (delete_token-AllConfigured call.write_fails id db h)

  show_opened-AllConfigured :
      (fails : Bool) (now : Time) (r : Result Refusal Token) (db : Db)
      → AllConfigured db
      → AllConfigured (show_opened server fails now r db).1
  unfolding show_opened
  show_opened-AllConfigured fails now (err e) db h = h
  show_opened-AllConfigured fails now (ok t) db h =
      subst AllConfigured (sym (shown_as (refresh_token_expiry fails server.cfg now t db)))
        (refresh-AllConfigured fails server.cfg now t db h)

  serve-AllConfigured :
      (r : HookRequest) (db : Db) (hub : Hub)
      → AllConfigured db
      → AllConfigured (serve lib server r (db, hub)).0
  unfolding handle_update handle_rotate handle_delete handle_get
  serve-AllConfigured (creates call user payload) db hub h =
      handle_create-AllConfigured call user payload db h
  serve-AllConfigured (shows call fails now) db hub h = show_opened-AllConfigured fails now _ db h
  serve-AllConfigured (updates hook_call call payload) db hub h =
      update_opened-AllConfigured call hook_call.user payload _ db hub h
  serve-AllConfigured (deletes hook_call call) db hub h =
      delete_opened-AllConfigured call hook_call.token_id _ db hub h
  serve-AllConfigured (rotates hook_call call) db hub h =
      rotate_opened-AllConfigured call _ db hub (open_hook-IsConfigured server hook_call edit db h)
        h

  -- Any sequence of requests to the handlers that create, show, change, delete and rotate, with any
  -- payloads, users and failures of the store, keeps this of every stored hook: its status is between
  -- 100 and 999, its content type is not blank, its quota is at least 1, its delay is between 0 and
  -- 10 seconds, its modes are "public" or "private", its provider is known and has a secret unless
  -- it is empty, and it has the hash of a secret if and only if it is private.
  pub serve_all-AllConfigured :
      (rs : List HookRequest) (db : Db) (hub : Hub)
      → AllConfigured db
      → AllConfigured (serve_all lib server rs (db, hub)).0
  serve_all-AllConfigured [] db hub h = h
  serve_all-AllConfigured (r ∷ rs) db hub h =
      serve_all-AllConfigured rs _ _ (serve-AllConfigured r db hub h)
