-- ===== src/Api/RateLimit.antt =====
-- internal/api/ratelimit.go: the middleware that limits the captures of one caller per minute.
pub mod Counter
pub mod Step
pub mod Window
use hookwatch.Models.{Time, Token}
use hookwatch.Prelude.{
  Bool, Option, Result, String, err, if◌then◌else◌, leb_ℤ, ltb_ℤ, nat_eq, none, ok, pos, some,
  string_eq, ℕ, ℤ, ◌*◌, ◌+◌, ◌-ℤ◌, ◌/◌, ◌==◌,
}
use hookwatch.Store.Config.{Config}
use hookwatch.Store.Db.{Db, StoreError, second}
use hookwatch.Store.RateLimits.{increment_rate_limit}
use hookwatch.Store.Tokens.{get_token}

-- rateLimitWindow
abbrev pub rate_limit_window : Time
rate_limit_window = 60 * second

-- X-RateLimit-Limit, X-RateLimit-Remaining and X-RateLimit-Reset.
pub record RateHeaders : Type 0 where
  pub limit : ℤ
  pub remaining : ℤ
  pub reset : Time

-- `passed` is next.ServeHTTP, with the headers set before it; `limited` is the answer 429.
pub data RateDecision : Type 0 where
  passed : Option RateHeaders → RateDecision
  limited : RateHeaders → RateDecision

-- What the middleware reads of a request, and when.
pub record Hit : Type 0 where
  pub token_id : String
  pub remote_addr : String
  pub real_ip : String
  pub at : Time

-- time.Now().UTC().Truncate(rateLimitWindow)
unfoldable pub window_start_of : Time → Time
window_start_of now = now / rate_limit_window * rate_limit_window

unfoldable pub caller : Hit → String
caller hit = if hit.real_ip == "" then hit.remote_addr else hit.real_ip

-- The headers after the hit that the counter shows as number `n`.
unfoldable pub rate_headers : ℤ → ℕ → Time → RateHeaders
rate_headers limit n window = record {
  limit = limit;
  remaining = if ltb_ℤ (limit -ℤ pos n) (pos 0) then pos 0 else limit -ℤ pos n;
  reset = window + rate_limit_window;
}

unfoldable pub counted : ℤ → Time → Result StoreError ℕ × Db → RateDecision × Db
unfolding rate_headers
counted limit window (err e, db) = (passed none, db)
counted limit window (ok n, db) =
    if ltb_ℤ limit (pos n)
    then (limited (rate_headers limit n window), db)
    else (passed (some (rate_headers limit n window)), db)

unfoldable pub rate_limited : Bool → Bool → Hit → Result StoreError Token → Db → RateDecision × Db
unfolding counted caller window_start_of
rate_limited fails query_fails hit (err e) db = (passed none, db)
rate_limited fails query_fails hit (ok token) db =
    if leb_ℤ token.rate_limit (pos 0)
    then (passed none, db)
    else counted token.rate_limit (window_start_of hit.at) (
        increment_rate_limit fails query_fails (caller hit) hit.token_id (window_start_of hit.at)
          db)

-- `get_fails` is a failure of GetToken, the other two are failures of IncrementRateLimit.
unfoldable pub rate_limit_middleware : Bool → Bool → Bool → Config → Hit → Db → RateDecision × Db
unfolding rate_limited
rate_limit_middleware get_fails fails query_fails cfg hit db =
    if hit.token_id == ""
    then (passed none, db)
    else rate_limited fails query_fails hit (get_token get_fails cfg hit.token_id db) db
