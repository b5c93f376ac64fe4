-- ===== src/Store/RateLimits.antt =====
-- internal/store/rate_limits.go
use hookwatch.Models.{Time}
use hookwatch.Prelude.{
  Bool, List, String, [], count, err, if◌then◌else◌, ltb, nat_eq, not, ok, select, string_eq, ℕ,
  ◌&&◌, ◌+◌, ◌==◌, ◌∷◌,
}
use hookwatch.Store.Db.{RateLimit, Write, driver, format_time}

-- The row of a caller, a token and a window.
abbrev pub is_window : String → String → Time → RateLimit → Bool
is_window ip token_id window r = r.ip == ip && r.token_id == token_id && r.window_start == window

unfoldable pub stored_count : String → String → Time → List RateLimit → ℕ
stored_count ip token_id window [] = 0
stored_count ip token_id window (r ∷ rs) =
    if is_window ip token_id window r then r.request_count else stored_count ip token_id window rs

-- INSERT … VALUES (…, 1) ON CONFLICT DO UPDATE SET request_count = request_count + 1
unfoldable pub increment : String → String → Time → List RateLimit → List RateLimit
increment ip token_id window [] =
    (record { ip = ip; token_id = token_id; window_start = window; request_count = 1 }) ∷ []
increment ip token_id window (r ∷ rs) =
    if is_window ip token_id window r
    then (record r { request_count = r.request_count + 1 }) ∷ rs
    else r ∷ increment ip token_id window rs

-- The counter is written before it is read, so a failure of the query leaves it incremented. These are
-- two statements without a transaction; here no other increment of the counter comes between them.
unfoldable pub increment_rate_limit : Bool → Bool → String → String → Time → Write ℕ
unfolding increment stored_count format_time
increment_rate_limit fails query_fails ip token_id window db =
    let db' = record db {
      rate_limits = increment ip token_id (format_time window) db.rate_limits;
    } in
    if fails
    then (err driver, db)
    else if query_fails
    then (err driver, db')
    else (ok (stored_count ip token_id (format_time window) db'.rate_limits), db')

unfoldable pub cleanup_rate_limits : Bool → Time → Write ℕ
unfolding format_time
cleanup_rate_limits fails before db = if fails then (err driver, db) else (
  ok (count (λ r. ltb r.window_start (format_time before)) db.rate_limits),
  record db {
    rate_limits = select (λ r. not (ltb r.window_start (format_time before))) db.rate_limits;
  },
)
