-- ===== src/Api/Upkeep.antt =====
-- internal/api/tokens.go and internal/store/store.go: loads and writes keep the settings of hooks.
pub mod Steps
pub mod Serving
use hookwatch.Api.Answer.{HookCall, Server, admit, open_hook}
use hookwatch.Api.Expiry.{LoadError, checked, has_expired, load_active_token, loaded}
use hookwatch.Api.Settings.{Gives, IsConfigured}
use hookwatch.Authz.{HookAction, can_access_token}
use hookwatch.Models.{Time, Token}
use hookwatch.Prelude.{
  All, All-append, All-find, All-update_where, Bool, Bool-cases, Option-cases, Result, String,
  arith, err, false, find, inl, inr, nat_eq, negsuc, not, ok, pos, string_eq, true, ℤ, ◌&&◌, ◌==◌,
  ◌≡◌, ◌≤ℤ◌,
}
use hookwatch.Store.Config.{Config}
use hookwatch.Store.Db.{Db, StoreError, owner_exists, token_exists}
use hookwatch.Store.Tokens.{
  apply_default_token_defaults, apply_default_token_max_requests, create_token, default_expiry,
  get_token, is_zero, scan_token, scanned, token_row, update_token, updated_row,
}

-- Every stored hook is configured.
abbrev pub AllConfigured : Db → Type 0
AllConfigured db = All IsConfigured db.tokens

default_expiry-IsConfigured :
    (cfg : Config) (now : Time) (t : Token)
    → IsConfigured t
    → IsConfigured (default_expiry cfg now t)
unfolding default_expiry
default_expiry-IsConfigured cfg now t h = elim (Bool-cases t.persistent) [
  | inl p ↦ rw p h
  | inr p ↦ elim (Bool-cases (not (t.expires_at == 0))) [
    | inl e ↦ rw (p, e) h
    | inr e ↦ rw (p, e) h
  ]
]

not_zero : (n : ℤ) → pos 1 ≤ℤ n → is_zero n ≡ true → ⊥
not_zero (pos n) h z = ground (arith, h, z)
not_zero (negsuc n) h z = ground (arith, h)

defaults-IsConfigured :
    (cfg : Config) (now : Time) (t : Token)
    → IsConfigured t
    → IsConfigured (apply_default_token_defaults cfg now t)
unfolding apply_default_token_defaults apply_default_token_max_requests
defaults-IsConfigured cfg now t h = elim (Bool-cases (is_zero t.max_requests)) [
  | inl z ↦ absurd (not_zero t.max_requests h.0.2.3 z)
  | inr z ↦ rw z (default_expiry-IsConfigured cfg now t h)
]

scan_token-IsConfigured :
    (cfg : Config) (t : Token) → IsConfigured t → IsConfigured (scan_token cfg t)
unfolding scan_token
scan_token-IsConfigured cfg t h = elim (Bool-cases (t.expires_at == 0 && not t.persistent)) [
  | inl e ↦ rw e h
  | inr e ↦ rw e h
]

-- What is loaded is a row, with another expiry at most.
pub get_token-IsConfigured :
    (fails : Bool) (cfg : Config) (id : String) (db : Db)
    → AllConfigured db
    → Gives IsConfigured (get_token fails cfg id db)
unfolding get_token scanned
get_token-IsConfigured true cfg id db h = tt
get_token-IsConfigured false cfg id db h =
    elim (Option-cases (find (λ t. t.uuid == id) db.tokens)) [
      | inl e ↦ rw e tt
      | inr (t, e) ↦ rw e (
          scan_token-IsConfigured cfg t (All-find IsConfigured (λ t. t.uuid == id) t db.tokens h e))
    ]

load-IsConfigured :
    (cfg : Config) (now : Time) (id : String) (r : Result StoreError Token) (db : Db)
    → Gives IsConfigured r
    → Gives IsConfigured (loaded false cfg now id false r db).0
unfolding loaded checked
load-IsConfigured cfg now id (err e) db h = tt
load-IsConfigured cfg now id (ok t) db h = elim (Bool-cases (has_expired now t)) [
  | inl e ↦ rw e tt
  | inr e ↦ rw e h
]

admit-IsConfigured :
    (server : Server) (call : HookCall) (action : HookAction) (db : Db) (r : Result LoadError Token)
    → Gives IsConfigured r
    → Gives IsConfigured (admit server call action db r)
unfolding admit
admit-IsConfigured server call action db (err e) h = tt
admit-IsConfigured server call action db (ok t) h =
    elim (Bool-cases (can_access_token call.grant_fails server.auth_mode call.user t action db)) [
      | inl e ↦ rw e h
      | inr e ↦ rw e tt
    ]

pub open_hook-IsConfigured :
    (server : Server) (call : HookCall) (action : HookAction) (db : Db)
    → AllConfigured db
    → Gives IsConfigured (open_hook server call action db)
unfolding open_hook load_active_token
open_hook-IsConfigured server call action db h = admit-IsConfigured server call action db _ (
    load-IsConfigured server.cfg call.load_now call.token_id _ db
      (get_token-IsConfigured call.get_fails server.cfg call.token_id db h))

pub create_token-AllConfigured :
    (fails : Bool) (cfg : Config) (now : Time) (t : Token) (db : Db)
    → IsConfigured t
    → AllConfigured db
    → AllConfigured (create_token fails cfg now t db).1
unfolding create_token token_row
create_token-AllConfigured true cfg now t db c h = h
create_token-AllConfigured false cfg now t db c h = elim (Bool-cases (token_exists t.uuid db)) [
  | inl e ↦ rw e h
  | inr e ↦ elim (Bool-cases (not (owner_exists t.owner_id db.users))) [
    | inl o ↦ rw (e, o) h
    | inr o ↦
        rw (e, o) (All-append IsConfigured db.tokens _ h (defaults-IsConfigured cfg now t c, tt))
  ]
]

pub update_token-AllConfigured :
    (fails : Bool) (cfg : Config) (now : Time) (t : Token) (db : Db)
    → IsConfigured t
    → AllConfigured db
    → AllConfigured (update_token fails cfg now t db).1
unfolding update_token updated_row token_row
update_token-AllConfigured true cfg now t db c h = h
update_token-AllConfigured false cfg now t db c h = elim (Bool-cases (token_exists t.uuid db)) [
  | inl e ↦ rw e (
      All-update_where IsConfigured (λ row. row.uuid == t.uuid) _ db.tokens
        (λ row m k. defaults-IsConfigured cfg now t c) h)
  | inr e ↦ rw e h
]
