-- ===== src/Worker/Codec.antt =====
-- What internal/worker takes from packages outside the repository: encoding/json, regexp and the
-- HTTP client. Each is a function that the model is given; nothing is assumed of them.
use hookwatch.Header.{Header}
use hookwatch.Models.{ActionLog, DelayConfig, FilterConfig, ForwardConfig, Time, TransformConfig}
use hookwatch.Prelude.{Bool, List, Option, Result, String, ℕ, ℤ}

-- A value of a JSON object: a string, or another value by its encoding.
pub data JsonValue : Type 0 where
  text other : String → JsonValue

-- A value of `Result.Data`.
pub data DataValue : Type 0 where
  flag : Bool → DataValue
  word : String → DataValue
  number : ℤ → DataValue

-- The request that an action forwards, with the timeout in nanoseconds.
pub record Outgoing : Type 0 where
  pub method : String
  pub url : String
  pub header : Header
  pub body : String
  pub timeout : ℤ

-- The answer: its body is what was read of it, 4096 bytes at most.
pub record Incoming : Type 0 where
  pub status_code : ℤ
  pub body : String
  pub duration_ms : ℤ

-- The `parse_` functions are json.Unmarshal into a type, with the error's text; `parse_object` is that
-- into a map, `none` for an error. `canonical` is http.CanonicalHeaderKey. `match_regexp` is
-- regexp.Compile and MatchString, `none` for an expression that does not compile.
pub record Codec : Type 0 where
  pub parse_forward : String → Result String ForwardConfig
  pub parse_filter : String → Result String FilterConfig
  pub parse_delay : String → Result String DelayConfig
  pub parse_transform : String → Result String TransformConfig
  pub parse_object : String → Option (List (String × JsonValue))
  pub encode_data : List (String × DataValue) → Option String
  pub encode_log : ActionLog → Option String
  pub canonical : String → String
  pub contains : String → String → Bool
  pub match_regexp : String → String → Option Bool

-- What happens outside while one action runs: the clock at its start and end, the client's answer or
-- error, whether the deadline of two minutes ends a delay, and which updates of its log fail.
pub record Moment : Type 0 where
  pub started : Time
  pub finished : Time
  pub new_request : Outgoing → Option String
  pub send : Outgoing → Result String Incoming
  pub cancelled : Option String
  pub running_fails : Bool
  pub done_fails : Bool
  pub skip_fails : ℕ → Bool
