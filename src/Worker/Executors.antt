-- ===== src/Worker/Executors.antt =====
-- internal/worker/{executor,filter,forward,delay,transform}.go: what one action does.
use hookwatch.Models.{DelayConfig, FilterConfig, Request, TransformConfig}
use hookwatch.Prelude.{
  Bool, List, Option, Result, String, [], cut_prefix, err, false, if◌then◌else◌, is_some, ltb_ℤ,
  nat_eq, none, not, ok, or_else, pos, some, string_eq, to_lower, true, ◌++◌, ◌==◌, ◌∷◌,
}
use hookwatch.Worker.Codec.{Codec, DataValue, JsonValue, Moment, flag, number, other, text, word}

pub record PipelineContext : Type 0 where
  pub method : String
  pub body : String
  pub content_type : String
  pub headers : List (String × String)
  pub query : String
  pub ip : String
  pub url : String

-- Result
pub record Outcome : Type 0 where
  pub status : String
  pub result_data : List (String × DataValue)
  pub stop_pipeline : Bool

unfoldable pub lookup {ℓ} : {A : Type ℓ} → String → List (String × A) → Option A
lookup key [] = none
lookup key ((k, v) ∷ rest) = if k == key then some v else lookup key rest

unfoldable pub lookup_fold : String → List (String × String) → Option String
lookup_fold lower [] = none
lookup_fold lower ((k, v) ∷ rest) = if to_lower k == lower then some v else lookup_fold lower rest

-- The exact name first, then without regard to case.
unfoldable pub header_field : String → List (String × String) → Option String
unfolding lookup lookup_fold
header_field name headers = elim (lookup name headers) [
  | some v ↦ some v
  | none ↦ lookup_fold (to_lower name) headers
]

unfoldable pub json_text : JsonValue → String
json_text (text s) = s
json_text (other s) = s

unfoldable pub query_value : String → Option (List (String × JsonValue)) → Option String
unfolding lookup json_text
query_value name none = none
query_value name (some params) = elim (lookup name params) [
  | none ↦ none
  | some v ↦ some (json_text v)
]

unfoldable pub resolve_query_param : Codec → String → String → Option String
unfolding query_value
resolve_query_param codec name query = query_value name (codec.parse_object query)

unfoldable pub prefixed_field : Codec → String → Request → PipelineContext → Option String
unfolding header_field resolve_query_param
prefixed_field codec field req pctx = elim (cut_prefix "header." field) [
  | some name ↦ header_field name pctx.headers
  | none ↦ elim (cut_prefix "query." field) [
    | some name ↦ resolve_query_param codec name req.query
    | none ↦ none
  ]
]

-- The value and whether it exists.
unfoldable pub resolve_field : Codec → String → Request → PipelineContext → String × Bool
unfolding prefixed_field
resolve_field codec field req pctx =
    if field == "method"
    then (req.method, true)
    else if field == "ip"
    then (req.ip, true)
    else if field == "content"
    then (pctx.body, not (pctx.body == ""))
    else (
      or_else (prefixed_field codec field req pctx) "",
      is_some (prefixed_field codec field req pctx),
    )

unfoldable pub evaluate : Codec → String → String → String → Bool → Bool
evaluate codec operator field_value test_value field_exists =
    if operator == "equals"
    then field_value == test_value
    else if operator == "contains"
    then codec.contains field_value test_value
    else if operator == "matches"
    then or_else (codec.match_regexp test_value field_value) false
    else if operator == "exists"
    then field_exists
    else false

abbrev filter_outcome : Bool → String → Outcome
filter_outcome true field = record {
  status = "success";
  result_data = ("matched", flag true) ∷ ("field", word field) ∷ [];
  stop_pipeline = false;
}
filter_outcome false field = record {
  status = "skipped";
  result_data = ("matched", flag false) ∷ ("field", word field) ∷ [];
  stop_pipeline = true;
}

unfoldable pub filter_matches : Codec → Request → PipelineContext → FilterConfig → Bool
unfolding resolve_field evaluate
filter_matches codec req pctx cfg =
    let found = resolve_field codec cfg.field req pctx in
    let matched = evaluate codec cfg.operator found.0 cfg.value found.1 in
    if cfg.negate then not matched else matched

-- An executor's result: an error's text or an outcome, and the context as it leaves it.
abbrev pub Execution : Type 0
Execution = Result String Outcome × PipelineContext

unfoldable pub execute_filter :
    Codec → Request → PipelineContext → Result String FilterConfig → Execution
unfolding filter_matches
execute_filter codec req pctx (err e) = (err e, pctx)
execute_filter codec req pctx (ok cfg) =
    (ok (filter_outcome (filter_matches codec req pctx cfg) cfg.field), pctx)

-- maxDelayMs
unfoldable pub execute_delay : Moment → PipelineContext → Result String DelayConfig → Execution
execute_delay now pctx (err e) = (err e, pctx)
execute_delay now pctx (ok cfg) =
    let duration = if ltb_ℤ (pos 30_000) cfg.duration_ms then pos 30_000 else cfg.duration_ms in
    elim now.cancelled [
      | some e ↦ (err e, pctx)
      | none ↦ (
        ok (record {
          status = "success";
          result_data = ("delayed_ms", number duration) ∷ [];
          stop_pipeline = false;
        }),
        pctx,
      )
    ]

unfoldable pub transformed : TransformConfig → PipelineContext → PipelineContext
transformed cfg pctx = record pctx {
  body = or_else cfg.body pctx.body;
  content_type = or_else cfg.content_type pctx.content_type;
}

abbrev entry {ℓ} : {A : Type ℓ} → String → (A → DataValue) → Option A → List (String × DataValue)
entry key f none = []
entry key f (some a) = (key, f a) ∷ []

unfoldable pub execute_transform : PipelineContext → Result String TransformConfig → Execution
unfolding transformed
execute_transform pctx (err e) = (err e, pctx)
execute_transform pctx (ok cfg) = (
  ok (record {
    status = "success";
    result_data =
        entry "body" (λ b. flag true) cfg.body
        ++ entry "content_type" (λ c. word c) cfg.content_type
        ++ entry "status" (λ n. number n) cfg.status;
    stop_pipeline = false;
  }),
  transformed cfg pctx,
)
