-- ===== src/Api/RateLimit/Window.antt =====
-- internal/api/ratelimit.go on a sequence of requests: how many of a window pass.
use hookwatch.Api.RateLimit.{Hit, rate_limit_middleware}
use hookwatch.Api.RateLimit.Step.{is_hit, passes}
use hookwatch.Models.{Time}
use hookwatch.Prelude.{
  List, String, [], false, if◌then◌else◌, leb, nat_eq, string_eq, ℕ, ◌&&◌, ◌+◌, ◌∷◌,
}
use hookwatch.Store.Config.{Config}
use hookwatch.Store.Db.{Db}

unfoldable pub smaller : ℕ → ℕ → ℕ
smaller a b = if leb a b then a else b

-- The number of the hits on a counter that pass, in a sequence of requests.
unfoldable pub let_through : Config → String → String → Time → List Hit → Db → ℕ
let_through cfg ip id window [] db = 0
let_through cfg ip id window (hit ∷ hits) db =
    let step = rate_limit_middleware false false false cfg hit db in
    (if is_hit ip id window hit && passes step.0 then 1 else 0)
    + let_through cfg ip id window hits step.1
