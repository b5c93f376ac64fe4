-- ===== src/Store/Config.antt =====
-- internal/store/config.go
use hookwatch.Models.{Time}
use hookwatch.Prelude.{if◌then◌else◌, leb_ℤ, pos, pos_part, ℤ, ◌*◌, ◌+ℤ◌, ◌≤ℤ◌}
use hookwatch.Store.Db.{second}

pub record Config : Type 0 where
  pub token_ttl : ℤ
  pub max_requests : ℤ

abbrev pub default_max_requests : ℤ
default_max_requests = pos 500

abbrev pub default_token_ttl : ℤ
default_token_ttl = pos (24 * 3600 * second)

unfoldable pub normalize_config : Config → Config
normalize_config cfg = record {
  token_ttl = if leb_ℤ cfg.token_ttl (pos 0) then default_token_ttl else cfg.token_ttl;
  max_requests = if leb_ℤ cfg.max_requests (pos 0) then default_max_requests else cfg.max_requests;
}

-- A time moved by a duration; Go's zero time is the earliest that occurs.
abbrev pub add_duration : Time → ℤ → Time
add_duration t d = pos_part (pos t +ℤ d)

-- The settings that a store runs with: those that `Open` has normalised.
abbrev pub IsNormal : Config → Type 0
IsNormal cfg = (pos 1 ≤ℤ cfg.token_ttl) × (pos 1 ≤ℤ cfg.max_requests)
