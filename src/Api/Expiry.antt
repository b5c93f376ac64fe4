-- ===== src/Api/Expiry.antt =====
-- internal/api/expiry.go: loading a token that must not have expired, and moving its expiry.
pub mod Cleanup
use hookwatch.Models.{Time, Token}
use hookwatch.Prelude.{Bool, Result, String, err, if◌then◌else◌, ltb, not, ok, ◌&&◌}
use hookwatch.Store.Config.{Config}
use hookwatch.Store.Db.{Db, StoreError}
use hookwatch.Store.Tokens.{get_token, touch_token_expiry}

-- `stored` is an error of the store; `token_expired` is errTokenExpired.
pub data LoadError : Type 0 where
  stored : StoreError → LoadError
  token_expired : LoadError

-- !token.Persistent && !token.ExpiresAt.After(now)
unfoldable pub has_expired : Time → Token → Bool
has_expired now token = not token.persistent && not (ltb now token.expires_at)

unfoldable pub moved : Token → Result StoreError Time × Db → Result LoadError Token × Db
moved token (ok expires, db) = (ok (record token { expires_at = expires }), db)
moved token (err e, db) = (err (stored e), db)

unfoldable pub checked :
    Bool → Config → Time → String → Bool → Token → Db → Result LoadError Token × Db
unfolding has_expired moved
checked touch_fails cfg now id touch token db =
    if has_expired now token
    then (err token_expired, db)
    else if touch && not token.persistent
    then moved token (touch_token_expiry touch_fails cfg id now db)
    else (ok token, db)

unfoldable pub loaded :
    Bool
    → Config
    → Time
    → String
    → Bool
    → Result StoreError Token
    → Db
    → Result LoadError Token × Db
unfolding checked
loaded touch_fails cfg now id touch (err e) db = (err (stored e), db)
loaded touch_fails cfg now id touch (ok token) db = checked touch_fails cfg now id touch token db

unfoldable pub load_active_token :
    Bool → Bool → Config → Time → String → Bool → Db → Result LoadError Token × Db
unfolding loaded
load_active_token fails touch_fails cfg now id touch db =
    loaded touch_fails cfg now id touch (get_token fails cfg id db) db

unfoldable pub refreshed : Token → Result StoreError Time × Db → Result StoreError Token × Db
refreshed token (ok expires, db) = (ok (record token { expires_at = expires }), db)
refreshed token (err e, db) = (err e, db)

-- The token comes back with its new expiry; a persistent one is not touched.
unfoldable pub refresh_token_expiry :
    Bool → Config → Time → Token → Db → Result StoreError Token × Db
unfolding refreshed
refresh_token_expiry fails cfg now token db =
    if token.persistent
    then (ok token, db)
    else refreshed token (touch_token_expiry fails cfg token.uuid now db)
