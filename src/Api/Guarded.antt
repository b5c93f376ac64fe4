-- ===== src/Api/Guarded.antt =====
-- internal/api/tokens.go: who gets an answer of the handlers of hooks, and what a refusal leaves.
use hookwatch.Api.Answer.{HookCall, Refusal, Server, admit, open_hook, refused, replied}
use hookwatch.Api.Change.{
  Handled, delete_opened, deleted, handle_delete, handle_rotate, handle_update, rotate_opened,
  rotate_rotated, update_opened, update_reconciled, update_validated, updated,
}
use hookwatch.Api.Expiry.{LoadError, checked, has_expired, load_active_token, loaded}
use hookwatch.Api.Manage.{TokenLibs, WriteCall}
use hookwatch.Api.Payload.{TokenPayload}
use hookwatch.Api.Secret.{SecretResult}
use hookwatch.Api.Settings.{Gives}
use hookwatch.Authz.{HookAction, can_access_token, delete, edit}
use hookwatch.Hub.{Hub}
use hookwatch.Models.{Time, Token}
use hookwatch.Prelude.{
  Bool, Bool-cases, Option, Result, String, err, false, inl, inr, nat_eq, none, not, ok, refl, some,
  string_eq, true, ◌==◌, ◌≡◌,
}
use hookwatch.Store.Config.{Config}
use hookwatch.Store.Db.{Db, StoreError, not_found, token_exists}
use hookwatch.Store.Tokens.{delete_token, get_token, update_token}

-- The hook was there, had not expired at the load, and the policy allows the action to the caller.
abbrev pub IsOpen : Server → HookCall → HookAction → Db → Token → Type 0
IsOpen server call action db t =
    (get_token call.get_fails server.cfg call.token_id db ≡ ok t)
    × (has_expired call.load_now t ≡ false)
    × (can_access_token call.grant_fails server.auth_mode call.user t action db ≡ true)

-- An answer is for an open hook; a refusal leaves the tables and the hub as they were.
abbrev pub Guarded : {A : Type 0} → Server → HookCall → HookAction → Db → Hub → Handled A → Type 0
Guarded server call action db hub (refused r, db', hub') = (db' ≡ db) × (hub' ≡ hub)
Guarded server call action db hub (replied n a, db', hub') =
    (t : Token) × IsOpen server call action db t

from_load :
    (cfg : Config) (now : Time) (id : String) (r : Result StoreError Token) (db : Db)
    → Gives (λ t. (r ≡ ok t) × (has_expired now t ≡ false)) (loaded false cfg now id false r db).0
unfolding loaded checked
from_load cfg now id (err e) db = tt
from_load cfg now id (ok t) db = elim (Bool-cases (has_expired now t)) [
  | inl e ↦ rw e tt
  | inr e ↦ rw e (refl, e)
]

from_admit :
    (server : Server) (call : HookCall) (action : HookAction) (db : Db) (P : Token → Type 0)
    (r : Result LoadError Token)
    → Gives P r
    → Gives
        (λ t.
          P t × (can_access_token call.grant_fails server.auth_mode call.user t action db ≡ true))
        (admit server call action db r)
unfolding admit
from_admit server call action db P (err e) h = tt
from_admit server call action db P (ok t) h =
    elim (Bool-cases (can_access_token call.grant_fails server.auth_mode call.user t action db)) [
      | inl e ↦ rw e (h, e)
      | inr e ↦ rw e tt
    ]

pub open_hook-IsOpen :
    (server : Server) (call : HookCall) (action : HookAction) (db : Db)
    → Gives (IsOpen server call action db) (open_hook server call action db)
unfolding open_hook load_active_token
open_hook-IsOpen server call action db = regrouped _ (
    from_admit server call action db
      (λ t.
        (get_token call.get_fails server.cfg call.token_id db ≡ ok t)
        × (has_expired call.load_now t ≡ false))
      _
      (from_load server.cfg call.load_now call.token_id
        (get_token call.get_fails server.cfg call.token_id db) db))
  where
    regrouped :
        (r : Result Refusal Token)
        → Gives
            (λ t.
              ((get_token call.get_fails server.cfg call.token_id db ≡ ok t)
                × (has_expired call.load_now t ≡ false))
              × (can_access_token call.grant_fails server.auth_mode call.user t action db ≡ true))
            r
        → Gives (IsOpen server call action db) r
    regrouped (err e) h = tt
    regrouped (ok t) h = (h.0.0, h.0.1, h.1)

-- A write that fails leaves the tables.
KeepsOnError : {A : Type 0} → Db → Result StoreError A × Db → Type 0
KeepsOnError db (err e, db') = db' ≡ db
KeepsOnError db (ok a, db') = Unit

update_token-KeepsOnError :
    (fails : Bool) (cfg : Config) (now : Time) (t : Token) (db : Db)
    → KeepsOnError db (update_token fails cfg now t db)
unfolding KeepsOnError update_token
update_token-KeepsOnError true cfg now t db = refl
update_token-KeepsOnError false cfg now t db = elim (Bool-cases (token_exists t.uuid db)) [
  | inl e ↦ rw e tt
  | inr e ↦ rw e refl
]

delete_token-KeepsOnError :
    (fails : Bool) (id : String) (db : Db) → KeepsOnError db (delete_token fails id db)
unfolding KeepsOnError delete_token
delete_token-KeepsOnError true id db = refl
delete_token-KeepsOnError false id db = elim (Bool-cases (token_exists id db)) [
  | inl e ↦ rw e tt
  | inr e ↦ rw e refl
]

module _ (lib : TokenLibs) (server : Server) (hook_call : HookCall) (call : WriteCall) (db : Db)
    (hub : Hub) (action : HookAction) where
  updated-Guarded :
      (t : Token) (secret : Option String) (r : Result StoreError Token × Db)
      → IsOpen server hook_call action db t
      → KeepsOnError db r
      → Guarded server hook_call action db hub (updated lib call secret r hub)
  unfolding updated KeepsOnError
  updated-Guarded t secret (err not_found, db') o k = (k, refl)
  updated-Guarded t secret (err _, db') o k = (k, refl)
  updated-Guarded t secret (ok t', db') o k = (t, o)

  deleted-Guarded :
      (t : Token) (r : Result StoreError (Unit {0}) × Db)
      → IsOpen server hook_call action db t
      → KeepsOnError db r
      → Guarded server hook_call action db hub (deleted lib call hook_call.token_id r hub)
  unfolding deleted KeepsOnError
  deleted-Guarded t (err not_found, db') o k = (k, refl)
  deleted-Guarded t (err _, db') o k = (k, refl)
  deleted-Guarded t (ok u, db') o k = (t, o)

  update_reconciled-Guarded :
      (t : Token) (r : SecretResult)
      → IsOpen server hook_call action db t
      → Guarded server hook_call action db hub (update_reconciled lib server call r db hub)
  unfolding update_reconciled
  update_reconciled-Guarded t (err e, t') o = (refl, refl)
  update_reconciled-Guarded t (ok s, t') o =
      updated-Guarded t s _ o (update_token-KeepsOnError call.write_fails server.cfg call.now _ db)

  update_validated-Guarded :
      (t : Token) (was_private : Bool) (r : Result String Token)
      → IsOpen server hook_call action db t
      → Guarded server hook_call action db hub
          (update_validated lib server call was_private r db hub)
  unfolding update_validated
  update_validated-Guarded t was_private (err e) o = (refl, refl)
  update_validated-Guarded t was_private (ok t') o = update_reconciled-Guarded t _ o

  update_opened-Guarded :
      (payload : Option TokenPayload) (r : Result Refusal Token)
      → Gives (IsOpen server hook_call action db) r
      → Guarded server hook_call action db hub
          (update_opened lib server call hook_call.user payload r db hub)
  unfolding update_opened
  update_opened-Guarded payload (err e) o = (refl, refl)
  update_opened-Guarded none (ok t) o = (refl, refl)
  update_opened-Guarded (some p) (ok t) o = update_validated-Guarded t _ _ o

  rotate_rotated-Guarded :
      (t : Token) (r : SecretResult)
      → IsOpen server hook_call action db t
      → Guarded server hook_call action db hub (rotate_rotated lib server call r db hub)
  unfolding rotate_rotated
  rotate_rotated-Guarded t (err e, t') o = (refl, refl)
  rotate_rotated-Guarded t (ok s, t') o =
      updated-Guarded t s _ o (update_token-KeepsOnError call.write_fails server.cfg call.now _ db)

  rotate_opened-Guarded :
      (r : Result Refusal Token)
      → Gives (IsOpen server hook_call action db) r
      → Guarded server hook_call action db hub (rotate_opened lib server call r db hub)
  unfolding rotate_opened
  rotate_opened-Guarded (err e) o = (refl, refl)
  rotate_opened-Guarded (ok t) o = elim (Bool-cases (not (t.receive_mode == "private"))) [
    | inl n ↦ rw n (refl, refl)
    | inr n ↦ rw n (rotate_rotated-Guarded t _ o)
  ]

  delete_opened-Guarded :
      (r : Result Refusal Token)
      → Gives (IsOpen server hook_call action db) r
      → Guarded server hook_call action db hub (delete_opened lib call hook_call.token_id r db hub)
  unfolding delete_opened
  delete_opened-Guarded (err e) o = (refl, refl)
  delete_opened-Guarded (ok t) o =
      deleted-Guarded t _ o (delete_token-KeepsOnError call.write_fails hook_call.token_id db)

-- A change, a rotation of the secret and a deletion are only answered for a hook that is there, has
-- not expired at the load, and on which the policy allows the caller to edit, or to delete. Whatever
-- is refused, for the caller, the payload or a failure of the store, changes no table and publishes
-- nothing.
pub handlers-Guarded :
    (lib : TokenLibs) (server : Server) (hook_call : HookCall) (call : WriteCall)
    (payload : Option TokenPayload) (db : Db) (hub : Hub)
    → Guarded server hook_call edit db hub (handle_update lib server hook_call call payload db hub)
      × Guarded server hook_call edit db hub (handle_rotate lib server hook_call call db hub)
      × Guarded server hook_call delete db hub (handle_delete lib server hook_call call db hub)
unfolding handle_update handle_rotate handle_delete
handlers-Guarded lib server hook_call call payload db hub = (
  update_opened-Guarded lib server hook_call call db hub edit payload _
      (open_hook-IsOpen server hook_call edit db),
  rotate_opened-Guarded lib server hook_call call db hub edit _
      (open_hook-IsOpen server hook_call edit db),
  delete_opened-Guarded lib server hook_call call db hub delete _
      (open_hook-IsOpen server hook_call delete db),
)
