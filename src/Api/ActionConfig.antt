-- ===== src/Api/ActionConfig.antt =====
-- internal/api/actions.go: which actions a client may configure. The packages encoding/json and regexp
-- are those that internal/worker runs the actions with.
use hookwatch.Models.{DelayConfig, FilterConfig, ForwardConfig, TransformConfig}
use hookwatch.Prelude.{
  Bool, Option, Result, String, cut_prefix, err, false, if◌then◌else◌, is_some, leb_ℤ, ltb_ℤ,
  nat_eq, none, not, ok, pos, some, string_eq, trim_space, true, ℤ, ◌&&◌, ◌==◌, ◌||◌,
}
use hookwatch.Worker.Codec.{Codec}

-- `url_scheme` is the scheme of url.Parse, `none` for an error.
pub record ActionLibs : Type 0 where
  pub codec : Codec
  pub url_scheme : String → Option String

-- validActionTypes
abbrev pub is_action_type : String → Bool
is_action_type t = t == "forward" || t == "filter" || t == "delay" || t == "transform"

unfoldable pub validate_action_type : String → Result String (Unit {0})
validate_action_type t =
    if is_action_type t then ok tt else err "type must be one of: forward, filter, delay, transform"

abbrev web_scheme : Option String → Bool
web_scheme none = false
web_scheme (some s) = s == "http" || s == "https"

unfoldable pub check_forward : ActionLibs → Result String ForwardConfig → Result String (Unit {0})
check_forward lib (err e) = err "invalid forward config"
check_forward lib (ok cfg) =
    if trim_space cfg.url == ""
    then err "forward config: url is required"
    else if not (web_scheme (lib.url_scheme cfg.url))
    then err "forward config: url must be a valid http or https URL"
    else if ltb_ℤ cfg.timeout (pos 0) || ltb_ℤ (pos 30) cfg.timeout
    then err "forward config: timeout must be between 0 and 30"
    else ok tt

abbrev is_field : String → Bool
is_field f =
    f == "method"
    || f == "ip"
    || f == "content"
    || is_some (cut_prefix "header." f)
    || is_some (cut_prefix "query." f)

abbrev is_operator : String → Bool
is_operator o = o == "equals" || o == "contains" || o == "matches" || o == "exists"

-- regexp.Compile: whether an expression compiles does not depend on the text that it is matched with.
unfoldable pub compiles : Codec → String → Bool
compiles codec expression = is_some (codec.match_regexp expression "")

unfoldable pub check_filter : ActionLibs → Result String FilterConfig → Result String (Unit {0})
unfolding compiles
check_filter lib (err e) = err "invalid filter config"
check_filter lib (ok cfg) =
    if trim_space cfg.field == ""
    then err "filter config: field is required"
    else if not (is_field cfg.field)
    then err "filter config: field must be method, ip, content, header.<name>, or query.<name>"
    else if not (is_operator cfg.operator)
    then err "filter config: operator must be one of: equals, contains, matches, exists"
    else if cfg.operator == "matches" && not (compiles lib.codec cfg.value)
    then err "filter config: value is not a valid regular expression"
    else ok tt

unfoldable pub check_delay : Result String DelayConfig → Result String (Unit {0})
check_delay (err e) = err "invalid delay config"
check_delay (ok cfg) =
    if ltb_ℤ cfg.duration_ms (pos 100) || ltb_ℤ (pos 30_000) cfg.duration_ms
    then err "delay config: duration_ms must be between 100 and 30000"
    else ok tt

-- A status that is set is between 100 and 999.
abbrev pub is_status : Option ℤ → Bool
is_status none = true
is_status (some n) = leb_ℤ (pos 100) n && leb_ℤ n (pos 999)

unfoldable pub check_transform : Result String TransformConfig → Result String (Unit {0})
check_transform (err e) = err "invalid transform config"
check_transform (ok cfg) =
    if not (is_some cfg.status) && not (is_some cfg.content_type) && not (is_some cfg.body)
    then err "transform config: at least one of status, content_type, or body is required"
    else if not (is_status cfg.status)
    then err "transform config: status must be between 100 and 999"
    else ok tt

unfoldable pub validate_action_config : ActionLibs → String → String → Result String (Unit {0})
unfolding check_forward check_filter check_delay check_transform
validate_action_config lib type config =
    if config == ""
    then err "config is required"
    else if type == "forward"
    then check_forward lib (lib.codec.parse_forward config)
    else if type == "filter"
    then check_filter lib (lib.codec.parse_filter config)
    else if type == "delay"
    then check_delay (lib.codec.parse_delay config)
    else if type == "transform"
    then check_transform (lib.codec.parse_transform config)
    else ok tt
