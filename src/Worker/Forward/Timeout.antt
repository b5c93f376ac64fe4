-- ===== src/Worker/Forward/Timeout.antt =====
-- internal/worker/forward.go: the bounds of the timeout.
use hookwatch.Prelude.{arith, negsuc, pos, ℕ, ℤ, ◌*◌, ◌<◌, ◌≡◌, ◌≤ℤ◌}
use hookwatch.Store.Db.{second}
use hookwatch.Worker.Forward.{forward_timeout, wrap_int64}

pub wrap_int64-small : (n : ℕ) → n < 9_223_372_036_854_775_808 → wrap_int64 n ≡ pos n
unfolding wrap_int64
wrap_int64-small n h = ground (arith, h)

-- The timeout of a forward action is between one second and 30, whatever number of seconds its
-- configuration has, also 0 or less, as long as that many seconds are fewer nanoseconds than 2 ^ 63.
pub forward_timeout-bounds :
    (seconds : ℤ)
    → seconds ≤ℤ pos 9_223_372_036
    → (pos second ≤ℤ forward_timeout seconds) × (forward_timeout seconds ≤ℤ pos (30 * second))
unfolding forward_timeout
forward_timeout-bounds (negsuc n) h = (ground arith, ground arith)
forward_timeout-bounds (pos n) h =
    rw (wrap_int64-small (n * second) (omega (arith, h))) (ground arith, ground arith)
