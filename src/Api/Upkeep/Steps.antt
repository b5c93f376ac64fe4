-- ===== src/Api/Upkeep/Steps.antt =====
-- internal/api: what the steps of the handlers that write hooks keep of their settings.
use hookwatch.Api.Change.{deleted, updated}
use hookwatch.Api.Expiry.{refresh_token_expiry, refreshed}
use hookwatch.Api.Manage.{TokenLibs, WriteCall, created, shown}
use hookwatch.Api.Secret.{
  SecretResult, clear_secret, reconcile_receive_secret, rotate_receive_secret, set_secret,
}
use hookwatch.Api.Settings.{IsConfigured, IsValid}
use hookwatch.Api.Upkeep.{AllConfigured}
use hookwatch.Hub.{Hub}
use hookwatch.Models.{Time, Token}
use hookwatch.Prelude.{
  All-select, All-update_where, Bool, Bool-cases, Option, Result, String, arith, err, false, inl,
  inr, is_some, nat_eq, none, not, ok, refl, some, string_eq, subst, sym, true, ◌&&◌, ◌==◌, ◌≡◌,
}
use hookwatch.Store.Config.{Config}
use hookwatch.Store.Db.{
  Db, StoreError, delete_actions_where, delete_requests_where, delete_tokens_where, not_found,
  token_exists,
}
use hookwatch.Store.Tokens.{delete_token, touch_token_expiry, touched}

pub updated-db :
    (lib : TokenLibs) (call : WriteCall) (secret : Option String) (r : Result StoreError Token × Db)
    (hub : Hub)
    → (updated lib call secret r hub).1 ≡ r.1
unfolding updated
updated-db lib call secret (err not_found, db) hub = refl
updated-db lib call secret (err _, db) hub = refl
updated-db lib call secret (ok t, db) hub = refl

-- What secret.go leaves is configured if the settings are valid.
abbrev pub SecretDone : SecretResult → Type 0
SecretDone (err e, t) = Unit
SecretDone (ok s, t) = IsConfigured t

set_secret-Done :
    (hash : String → String) (generated : Option String) (t : Token)
    → IsValid t
    → (t.receive_mode == "private") ≡ true
    → SecretDone (set_secret hash generated t)
unfolding set_secret
set_secret-Done hash none t h p = tt
set_secret-Done hash (some secret) t h p = (h, sym p)

-- The token was configured before the change if it was private.
pub reconcile-Done :
    (hash : String → String) (generated : Option String) (t : Token) (was_private : Bool)
    → IsValid t
    → SecretDone (reconcile_receive_secret hash generated t was_private)
unfolding reconcile_receive_secret clear_secret
reconcile-Done hash generated t was_private h = elim (Bool-cases (t.receive_mode == "private")) [
  | inr n ↦ rw n (h, sym n)
  | inl p ↦
      elim (Bool-cases
        (was_private && is_some t.receive_secret_hash && is_some t.receive_secret_prefix)) [
          | inl o ↦ rw (p, o) (h, ground (arith, o, p))
          | inr o ↦ rw (p, o) (set_secret-Done hash generated t h p)
        ]
]

pub rotate-Done :
    (hash : String → String) (generated : Option String) (t : Token)
    → IsValid t
    → SecretDone (rotate_receive_secret hash generated t)
unfolding rotate_receive_secret clear_secret
rotate-Done hash generated t h = elim (Bool-cases (t.receive_mode == "private")) [
  | inr n ↦ rw n (h, sym n)
  | inl p ↦ rw p (set_secret-Done hash generated t h p)
]

pub created_as :
    (secret : Option String) (r : Result StoreError Token × Db) → (created secret r).1 ≡ r.1
unfolding created
created_as secret (err e, db) = refl
created_as secret (ok t, db) = refl

pub deleted-db :
    (lib : TokenLibs) (call : WriteCall) (id : String) (r : Result StoreError (Unit {0}) × Db)
    (hub : Hub)
    → (deleted lib call id r hub).1 ≡ r.1
unfolding deleted
deleted-db lib call id (err not_found, db) hub = refl
deleted-db lib call id (err _, db) hub = refl
deleted-db lib call id (ok u, db) hub = refl

pub delete_token-AllConfigured :
    (fails : Bool) (id : String) (db : Db)
    → AllConfigured db
    → AllConfigured (delete_token fails id db).1
unfolding delete_token delete_tokens_where delete_actions_where delete_requests_where
delete_token-AllConfigured true id db h = h
delete_token-AllConfigured false id db h = elim (Bool-cases (token_exists id db)) [
  | inl e ↦ rw e (All-select IsConfigured (λ t. not (t.uuid == id)) db.tokens h)
  | inr e ↦ rw e h
]

pub shown_as : (r : Result StoreError Token × Db) → (shown r).1 ≡ r.1
unfolding shown
shown_as (err e, db) = refl
shown_as (ok t, db) = refl

refreshed_as : (t : Token) (r : Result StoreError Time × Db) → (refreshed t r).1 ≡ r.1
unfolding refreshed
refreshed_as t (err e, db) = refl
refreshed_as t (ok w, db) = refl

touch-AllConfigured :
    (fails : Bool) (cfg : Config) (id : String) (now : Time) (db : Db)
    → AllConfigured db
    → AllConfigured (touch_token_expiry fails cfg id now db).1
unfolding touch_token_expiry touched
touch-AllConfigured true cfg id now db h = h
touch-AllConfigured false cfg id now db h = elim (Bool-cases (token_exists id db)) [
  | inl e ↦
      rw e (All-update_where IsConfigured (λ row. row.uuid == id) _ db.tokens (λ row m k. k) h)
  | inr e ↦ rw e h
]

pub refresh-AllConfigured :
    (fails : Bool) (cfg : Config) (now : Time) (t : Token) (db : Db)
    → AllConfigured db
    → AllConfigured (refresh_token_expiry fails cfg now t db).1
unfolding refresh_token_expiry
refresh-AllConfigured fails cfg now t db h = elim (Bool-cases t.persistent) [
  | inl p ↦ rw p h
  | inr p ↦ rw p (
      subst AllConfigured
        (sym (
          refreshed_as (record t { persistent = false })
            (touch_token_expiry fails cfg t.uuid now db)))
        (touch-AllConfigured fails cfg t.uuid now db h))
]
