-- ===== src/Api/Capture/Access.antt =====
-- internal/api/capture.go: which requests a hook lets in.
use hookwatch.Api.Capture.{Incoming, Surroundings, authorized, capture, capture_loaded}
use hookwatch.Api.Encode.{Libs}
use hookwatch.Api.Expiry.{
  LoadError, checked, has_expired, load_active_token, loaded, stored, token_expired,
}
use hookwatch.Api.Secret.{extract_receive_secret, validate_receive_secret}
use hookwatch.Hub.{Hub}
use hookwatch.Models.{Request, Time, Token}
use hookwatch.Prelude.{
  Bool, Bool-cases, Option, Result, String, ap, arith, differs, eq_iff, err, false, holds, inl, inr,
  nat_eq, none, ok, refl, some, string_eq, subst, true, ◌==◌, ◌≡◌, ◌≢◌, ◌⊎◌,
}
use hookwatch.Store.Config.{Config}
use hookwatch.Store.Db.{
  Db, StoreError, driver, foreign_key_violation, missing_action, not_found, quota_exceeded,
  unique_violation,
}
use hookwatch.Store.Tokens.{get_token}

the_ok : {E : Type 0} → Token → Result E Token
the_ok t = ok t

from_ok : {E : Type 0} → Token → Result E Token → Token
from_ok u (ok t) = t
from_ok u (err e) = u

ok_injective : {E : Type 0} (t u : Token) → (the_ok {E = E} t ≡ the_ok u) → t ≡ u
unfolding from_ok the_ok
ok_injective t u e = ap (λ r. from_ok t r) e

loaded-ok :
    (touch_fails : Bool) (cfg : Config) (now : Time) (id : String) (t : Result StoreError Token)
    → (db : Db) (hook : Token) → (loaded touch_fails cfg now id false t db).0 ≡ ok hook
    → (t ≡ ok hook) × (has_expired now hook ≡ false)
unfolding loaded checked the_ok
loaded-ok touch_fails cfg now id (err e) db hook = λ h. ground (arith, h)
loaded-ok touch_fails cfg now id (ok found) db hook = elim (Bool-cases (has_expired now found)) [
  | inl e ↦ rw e (λ h. ground (arith, h))
  | inr e ↦ rw e (λ h.
      let same = ok_injective found hook h in
      (ap (λ t. ok t) same, subst (λ t. has_expired now t ≡ false) same e))
]

holds-some : (o : Option String) (s : String) → holds o s ≡ true → o ≡ some s
holds-some none s = λ h. ground (arith, h)
holds-some (some t) s = λ h. ap (λ u. some u) ((eq_iff t s).0 h)

authorized-secret :
    (libs : Libs) (r : Incoming) (hook : Token)
    → authorized libs r hook ≡ true
    → (hook.receive_mode ≢ "private")
      ⊎ (((extract_receive_secret r.caller).0 ≢ "")
          × (hook.receive_secret_hash ≡ some (libs.hash (extract_receive_secret r.caller).0)))
unfolding authorized validate_receive_secret
authorized-secret libs r hook h = elim (Bool-cases (hook.receive_mode == "private")) [
  | inr p ↦ inl (differs hook.receive_mode "private" p)
  | inl p ↦
      let secret = (extract_receive_secret r.caller).0 in
      inr (
        differs secret "" (ground (arith, h, p)),
        holds-some hook.receive_secret_hash (libs.hash secret) (ground (arith, h, p)),
      )
]

-- A hook whose mode is private is captured only with its secret.
loaded-authorized :
    (libs : Libs) (cfg : Config) (env : Surroundings) (r : Incoming)
    → (out : Result LoadError Token × Db) (hub : Hub) (req : Request)
    → (capture_loaded libs cfg env r out hub).spawned ≡ some req
    → (hook : Token) × (out.0 ≡ ok hook) × (authorized libs r hook ≡ true)
unfolding capture_loaded
loaded-authorized libs cfg env r (err token_expired, db) hub req = λ h. ground (arith, h)
loaded-authorized libs cfg env r (err (stored not_found), db) hub req = λ h. ground (arith, h)
loaded-authorized libs cfg env r (err (stored quota_exceeded), db) hub req = λ h. ground (arith, h)
loaded-authorized libs cfg env r (err (stored unique_violation), db) hub req =
    λ h. ground (arith, h)
loaded-authorized libs cfg env r (err (stored foreign_key_violation), db) hub req =
    λ h. ground (arith, h)
loaded-authorized libs cfg env r (err (stored missing_action), db) hub req = λ h. ground (arith, h)
loaded-authorized libs cfg env r (err (stored driver), db) hub req = λ h. ground (arith, h)
loaded-authorized libs cfg env r (ok hook, db) hub req =
    elim (Bool-cases (authorized libs r hook)) [
      | inl a ↦ λ h. (hook, refl, a)
      | inr a ↦ rw a (λ h. ground (arith, h))
    ]

-- A capture that stores a request and starts the pipeline is one of a hook that the database has and
-- that has not expired; if the hook is private, the request carries a secret that is not empty and
-- whose hash is the stored one.
pub capture-authorized :
    (libs : Libs) (cfg : Config) (env : Surroundings) (r : Incoming) (db : Db) (hub : Hub)
    → (req : Request) → (capture libs cfg env r db hub).spawned ≡ some req
    → (hook : Token) × (get_token env.get_fails cfg r.token_id db ≡ ok hook)
      × (has_expired env.load_now hook ≡ false)
      × ((hook.receive_mode ≢ "private")
          ⊎ (((extract_receive_secret r.caller).0 ≢ "")
              × (hook.receive_secret_hash ≡ some (libs.hash (extract_receive_secret r.caller).0))))
unfolding capture load_active_token
capture-authorized libs cfg env r db hub req = elim (Bool-cases (libs.parse_uuid r.token_id)) [
  | inr e ↦ rw e (λ h. ground (arith, h))
  | inl e ↦ rw e (λ h.
      let t = get_token env.get_fails cfg r.token_id db in
      let (hook, found, allowed) =
        loaded-authorized libs cfg env r
          (loaded env.touch_fails cfg env.load_now r.token_id false t db) hub req h in
      let (read, fresh) = loaded-ok env.touch_fails cfg env.load_now r.token_id t db hook found in
      (hook, read, fresh, authorized-secret libs r hook allowed))
]
