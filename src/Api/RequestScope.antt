-- ===== src/Api/RequestScope.antt =====
-- internal/api/requests.go: the requests that a caller sees and deletes are those of the hook.
use hookwatch.Api.Answer.{Answer, HookCall, Refusal, Server, refused, replied}
use hookwatch.Api.Expiry.{refresh_token_expiry, refreshed}
use hookwatch.Api.Guarded.{IsOpen, open_hook-IsOpen}
use hookwatch.Api.RequestHandlers.{
  EnterCall, enter, entered, found_request, get_entered, handle_get_request, refreshed_entry,
  request_of_hook, shown_request,
}
use hookwatch.Api.RequestRemoval.{
  delete_all_entered, delete_entered, handle_delete_all_requests, handle_delete_request,
  request_deleted,
}
use hookwatch.Api.Settings.{Gives}
use hookwatch.Authz.{HookAction, edit, view}
use hookwatch.Models.{Request, Time, Token}
use hookwatch.Prelude.{
  Bool, Bool-cases, Option-cases, Result, String, any, ap, arith, eq_iff, err, false, find,
  find-true, if◌then◌else◌, inl, inr, nat_eq, not, ok, refl, select, string_eq, true, ◌&&◌, ◌==◌,
  ◌∙◌, ◌≡◌,
}
use hookwatch.Store.Config.{Config}
use hookwatch.Store.Db.{Db, StoreError, delete_requests_where, driver, not_found, token_exists}
use hookwatch.Store.Requests.{delete_all_requests_by_token, delete_request, get_request}
use hookwatch.Store.Tokens.{touch_token_expiry}

-- The steps of `enter` that give a token do so for an open hook, and touch no request.
abbrev Entered : Server → HookCall → HookAction → Db → Result Refusal Token × Db → Type 0
Entered server call action db (err r, db') = db'.requests ≡ db.requests
Entered server call action db (ok t, db') =
    (db'.requests ≡ db.requests) × ((t : Token) × IsOpen server call action db t)

touch-requests :
    (fails : Bool) (cfg : Config) (id : String) (now : Time) (db : Db)
    → (touch_token_expiry fails cfg id now db).1.requests ≡ db.requests
unfolding touch_token_expiry
touch-requests fails cfg id now db = ground arith

refreshed-requests :
    (t : Token) (r : Result StoreError Time × Db) → (refreshed t r).1.requests ≡ r.1.requests
unfolding refreshed
refreshed-requests t (err e, db) = refl
refreshed-requests t (ok w, db) = refl

refresh-requests :
    (fails : Bool) (cfg : Config) (now : Time) (t : Token) (db : Db)
    → (refresh_token_expiry fails cfg now t db).1.requests ≡ db.requests
unfolding refresh_token_expiry
refresh-requests fails cfg now t db = elim (Bool-cases t.persistent) [
  | inl p ↦ rw p refl
  | inr p ↦ rw p (
      refreshed-requests (record t { persistent = false })
        (touch_token_expiry fails cfg t.uuid now db)
      ∙ touch-requests fails cfg t.uuid now db)
]

refreshed_entry-Entered :
    (server : Server) (call : HookCall) (action : HookAction) (db : Db) (t : Token)
    (r : Result StoreError Token × Db)
    → IsOpen server call action db t
    → r.1.requests ≡ db.requests
    → Entered server call action db (refreshed_entry r)
unfolding refreshed_entry
refreshed_entry-Entered server call action db t (err e, db') o h = h
refreshed_entry-Entered server call action db t (ok t', db') o h = (h, (t, o))

entered-Entered :
    (server : Server) (hook_call : HookCall) (call : EnterCall) (action : HookAction) (db : Db)
    (r : Result Refusal Token)
    → Gives (IsOpen server hook_call action db) r
    → Entered server hook_call action db (entered server call r db)
unfolding entered
entered-Entered server hook_call call action db (err e) o = refl
entered-Entered server hook_call call action db (ok t) o =
    refreshed_entry-Entered server hook_call action db t _ o
      (refresh-requests call.touch_fails server.cfg call.touch_now t db)

pub enter-Entered :
    (server : Server) (hook_call : HookCall) (call : EnterCall) (action : HookAction) (db : Db)
    → Entered server hook_call action db (enter server hook_call call action db)
unfolding enter
enter-Entered server hook_call call action db =
    entered-Entered server hook_call call action db _ (open_hook-IsOpen server hook_call action db)

-- A request that is shown is one of the hook, with the identifier that was asked for, and the hook is
-- open to the caller.
abbrev pub Shows : Server → HookCall → String → Db → Answer Request × Db → Type 0
Shows server call request_id db (refused r, db') = db'.requests ≡ db.requests
Shows server call request_id db (replied n req, db') =
    (db'.requests ≡ db.requests)
    × ((t : Token) × IsOpen server call view db t)
    × (req.token_id ≡ call.token_id)
    × (req.uuid ≡ request_id)

get_request-scope :
    (server : Server) (hook_call : HookCall) (call : EnterCall) (request_id : String) (db : Db)
    (r : Result Refusal Token × Db)
    → Entered server hook_call view db r
    → Shows server hook_call request_id db
        (shown_request (get_entered call hook_call.token_id request_id r))
unfolding get_entered shown_request get_request found_request
get_request-scope server hook_call call request_id db (err e, db') h = h
get_request-scope server hook_call call request_id db (ok t, db') h =
    elim (Bool-cases call.query_fails) [
      | inl f ↦ rw f h.0
      | inr f ↦
          elim (Option-cases
            (find (λ r. r.token_id == hook_call.token_id && r.uuid == request_id) db'.requests)) [
              | inl e ↦ rw (f, e) h.0
              | inr (q, e) ↦
                  let both : (q.token_id == hook_call.token_id && q.uuid == request_id) ≡ true =
                    find-true (λ r. r.token_id == hook_call.token_id && r.uuid == request_id)
                      db'.requests q e in
                  rw (f, e)
                    (
                      h.0,
                      h.1,
                      (eq_iff q.token_id hook_call.token_id).0 (ground (arith, both)),
                      (eq_iff q.uuid request_id).0 (ground (arith, both)),
                    )
            ]
    ]

-- A request that is shown belongs to the hook in the path and has the identifier in the path, and the
-- hook is there, has not expired, and the policy lets the caller view it. No request is changed, whether
-- it is shown or refused.
pub handle_get_request-Shows :
    (server : Server) (hook_call : HookCall) (call : EnterCall) (request_id : String) (db : Db)
    → Shows server hook_call request_id db (handle_get_request server hook_call call request_id db)
unfolding handle_get_request request_of_hook
handle_get_request-Shows server hook_call call request_id db =
    get_request-scope server hook_call call request_id db _
      (enter-Entered server hook_call call view db)

-- What a deletion leaves of the requests, if it is answered; the hook is open to an editor then.
abbrev pub Removes : (Request → Bool) → Server → HookCall → Db → Answer (Unit {0}) × Db → Type 0
Removes p server call db (refused r, db') = db'.requests ≡ db.requests
Removes p server call db (replied n u, db') =
    (db'.requests ≡ select (λ r. not (p r)) db.requests)
    × ((t : Token) × IsOpen server call edit db t)

request_deleted-Removes :
    (p : Request → Bool) (server : Server) (call : HookCall) (missing : Refusal) (message : String)
    (db db' : Db) (t : Token)
    → IsOpen server call edit db t
    → db'.requests ≡ db.requests
    → (ok_to : Bool) (fails : Bool)
    → Removes p server call db (
        request_deleted missing message (
          if fails
          then (err driver, db')
          else if ok_to
          then (ok tt, delete_requests_where p db')
          else (err not_found, db')))
unfolding request_deleted delete_requests_where
request_deleted-Removes p server call missing message db db' t o h ok_to true = h
request_deleted-Removes p server call missing message db db' t o h true false =
    (ap (select (λ r. not (p r))) h, (t, o))
request_deleted-Removes p server call missing message db db' t o h false false = h

delete_entered-Removes :
    (server : Server) (hook_call : HookCall) (call : EnterCall) (request_id : String) (db : Db)
    (r : Result Refusal Token × Db)
    → Entered server hook_call edit db r
    → Removes
        (λ q. q.token_id == hook_call.token_id && q.uuid == request_id)
        server
        hook_call
        db
        (delete_entered call hook_call.token_id request_id r)
unfolding delete_entered delete_request
delete_entered-Removes server hook_call call request_id db (err e, db') h = h
delete_entered-Removes server hook_call call request_id db (ok t, db') h =
    request_deleted-Removes _ server hook_call _ _ db db' h.1.0 h.1.1 h.0
      (any (λ q. q.token_id == hook_call.token_id && q.uuid == request_id) db'.requests)
      call.query_fails

delete_all_entered-Removes :
    (server : Server) (hook_call : HookCall) (call : EnterCall) (db : Db)
    (r : Result Refusal Token × Db)
    → Entered server hook_call edit db r
    → Removes
        (λ q. q.token_id == hook_call.token_id)
        server
        hook_call
        db
        (delete_all_entered call hook_call.token_id r)
unfolding delete_all_entered delete_all_requests_by_token
delete_all_entered-Removes server hook_call call db (err e, db') h = h
delete_all_entered-Removes server hook_call call db (ok t, db') h =
    request_deleted-Removes _ server hook_call _ _ db db' h.1.0 h.1.1 h.0
      (token_exists hook_call.token_id db') call.query_fails

-- A deletion that is answered removes just the requests of the hook in the path, or just the one of
-- them in the path, for a hook that is there, has not expired and that the caller may edit. One that is
-- refused changes no request.
pub deletions-Removes :
    (server : Server) (hook_call : HookCall) (call : EnterCall) (request_id : String) (db : Db)
    → Removes
        (λ q. q.token_id == hook_call.token_id && q.uuid == request_id)
        server
        hook_call
        db
        (handle_delete_request server hook_call call request_id db)
      × Removes
          (λ q. q.token_id == hook_call.token_id)
          server
          hook_call
          db
          (handle_delete_all_requests server hook_call call db)
unfolding handle_delete_request handle_delete_all_requests
deletions-Removes server hook_call call request_id db = (
  delete_entered-Removes server hook_call call request_id db _
      (enter-Entered server hook_call call edit db),
  delete_all_entered-Removes server hook_call call db _
      (enter-Entered server hook_call call edit db),
)
