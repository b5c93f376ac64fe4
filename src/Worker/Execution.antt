-- ===== src/Worker/Execution.antt =====
-- internal/worker/worker.go: ExecuteActions, from the list of the actions to the published logs.
use hookwatch.Hub.{Hub, publish}
use hookwatch.Models.{Action, ActionLog, Request}
use hookwatch.Prelude.{
  Bool, List, Option, Result, String, [], err, false, if◌then◌else◌, is_ok, none, ok, select, some,
  suc, true, ℕ, ◌∷◌,
}
use hookwatch.Store.ActionLogs.{create_action_log}
use hookwatch.Store.Actions.{list_actions_by_token}
use hookwatch.Store.Db.{Db, StoreError}
use hookwatch.Store.Order.{OrderBy}
use hookwatch.Worker.Codec.{Codec, JsonValue, Moment, other, text}
use hookwatch.Worker.Executors.{PipelineContext, lookup}
use hookwatch.Worker.Pipeline.{Progress, run_actions}

unfoldable pub pending_log : String → Action → Request → ActionLog
pending_log id action req = record {
  uuid = id;
  action_id = action.uuid;
  request_id = req.uuid;
  status = "pending";
  result = "{}";
  started_at = 0;
  completed_at = 0;
}

-- Each enabled action with its log; `ids` are the fresh identifiers.
unfoldable pub with_logs : (ℕ → String) → Request → List Action → List (Action × ActionLog)
unfolding pending_log
with_logs ids req [] = []
with_logs ids req (action ∷ rest) =
    (action, pending_log (ids 0) action req) ∷ with_logs (λ n. ids (suc n)) req rest

-- The logs are created in turn; the first error ends it (`false`), with the logs before it created.
unfoldable pub create_logs : (ℕ → Bool) → List (Action × ActionLog) → Db → Bool × Db
create_logs fails [] db = (true, db)
create_logs fails ((action, log) ∷ rest) db =
    let step = create_action_log (fails 0) log db in
    let more = create_logs (λ n. fails (suc n)) rest step.1 in
    if is_ok step.0 then more else (false, step.1)

unfoldable pub string_headers : List (String × JsonValue) → List (String × String)
string_headers [] = []
string_headers ((k, text v) ∷ rest) = (k, v) ∷ string_headers rest
string_headers ((k, other v) ∷ rest) = string_headers rest

-- extractHeadersMap
unfoldable pub extract_headers_map : Option (List (String × JsonValue)) → List (String × String)
unfolding string_headers
extract_headers_map none = []
extract_headers_map (some headers) = string_headers headers

abbrev lower_content_type : Option JsonValue → String
lower_content_type (some (text s)) = s
lower_content_type o = ""

-- extractContentType: the first of the two keys that has a string.
unfoldable pub extract_content_type : Option (List (String × JsonValue)) → String
unfolding lookup
extract_content_type none = ""
extract_content_type (some headers) = elim (lookup "Content-Type" headers) [
  | some v ↦ elim v [ text s ↦ s | other s ↦ lower_content_type (lookup "content-type" headers) ]
  | none ↦ lower_content_type (lookup "content-type" headers)
]

unfoldable pub initial_context : Codec → Request → PipelineContext
unfolding extract_headers_map extract_content_type
initial_context codec req = record {
  method = req.method;
  body = req.content;
  content_type = extract_content_type (codec.parse_object req.headers);
  headers = extract_headers_map (codec.parse_object req.headers);
  query = req.query;
  ip = req.ip;
  url = req.url;
}

-- What happens outside during one call of ExecuteActions.
pub record Run : Type 0 where
  pub list_fails : Bool
  pub create_fails : ℕ → Bool
  pub ids : ℕ → String
  pub moments : ℕ → Moment

unfoldable pub run_logged : Codec → Run → Request → List (Action × ActionLog) → Bool × Db → Progress
unfolding run_actions initial_context
run_logged codec run req work (false, db) = record { db = db; published = [] }
run_logged codec run req work (true, db) =
    run_actions codec run.moments req (initial_context codec req) work
      (record { db = db; published = [] })

unfoldable pub run_listed : Codec → Run → Request → Result StoreError (List Action) → Db → Progress
unfolding run_logged with_logs create_logs
run_listed codec run req (err e) db = record { db = db; published = [] }
run_listed codec run req (ok actions) db =
    let work = with_logs run.ids req (select (λ a. a.enabled) actions) in
    run_logged codec run req work (create_logs run.create_fails work db)

-- ExecuteActions on the tables. What it publishes goes to the hub, which nothing here reads.
unfoldable pub execute_actions : Codec → OrderBy Action → Run → String → Request → Db → Progress
unfolding run_listed
execute_actions codec order run token_id req db =
    run_listed codec run req (list_actions_by_token order run.list_fails token_id db) db

-- publishActionCompleted: a log that cannot be encoded is not published.
unfoldable pub publish_completed : Codec → String → List ActionLog → Hub → Hub
publish_completed codec token_id [] hub = hub
publish_completed codec token_id (log ∷ logs) hub = elim (codec.encode_log log) [
  | none ↦ publish_completed codec token_id logs hub
  | some payload ↦
      publish_completed codec token_id logs
        (publish token_id (record { id = ""; type = "action.completed"; payload = payload }) hub)
]
