-- ===== src/Worker/Pipeline.antt =====
-- internal/worker/worker.go: ExecuteActions. The clocks, the network and the failures of each action
-- are in its `Moment`.
use hookwatch.Models.{Action, ActionLog, Request}
use hookwatch.Prelude.{
  Bool, List, Option, Result, String, [], err, false, if◌then◌else◌, nat_eq, none, ok, or_else,
  some, string_eq, suc, ℕ, ◌++◌, ◌==◌, ◌∷◌,
}
use hookwatch.Store.ActionLogs.{update_action_log}
use hookwatch.Store.Db.{Db}
use hookwatch.Worker.Codec.{Codec, Moment, word}
use hookwatch.Worker.Executors.{
  Execution, Outcome, PipelineContext, execute_delay, execute_filter, execute_transform,
}
use hookwatch.Worker.Forward.{execute_forward}

-- executorFor and Execute: `none` for a type that has no executor.
unfoldable pub execute :
    Codec → Moment → Request → PipelineContext → String → String → Option Execution
unfolding execute_forward execute_filter execute_delay execute_transform
execute codec now req pctx type config =
    if type == "forward"
    then some (execute_forward codec now pctx (codec.parse_forward config))
    else if type == "filter"
    then some (execute_filter codec req pctx (codec.parse_filter config))
    else if type == "delay"
    then some (execute_delay now pctx (codec.parse_delay config))
    else if type == "transform"
    then some (execute_transform pctx (codec.parse_transform config))
    else none

-- The tables, and the logs that were published so far, in order.
pub record Progress : Type 0 where
  pub db : Db
  pub published : List ActionLog

-- UpdateActionLog, whose error is dropped, and publishActionCompleted.
unfoldable pub finish_log : Bool → ActionLog → Progress → Progress
finish_log fails log p = record {
  db = (update_action_log fails log p.db).1;
  published = p.published ++ log ∷ [];
}

unfoldable pub start_log : Moment → ActionLog → ActionLog
start_log now log = record log { status = "running"; started_at = now.started }

unfoldable pub unknown_type : Moment → ActionLog → ActionLog
unknown_type now log = record log {
  status = "failed";
  result = "{\"error\": \"unknown action type\"}";
  completed_at = now.finished;
}

unfoldable pub executed_log : Codec → Moment → Result String Outcome → ActionLog → ActionLog
executed_log codec now (err e) log = record log {
  status = "failed";
  result = or_else (codec.encode_data (("error", word e) ∷ [])) log.result;
  completed_at = now.finished;
}
executed_log codec now (ok outcome) log = record log {
  status = outcome.status;
  result = or_else (codec.encode_data outcome.result_data) log.result;
  completed_at = now.finished;
}

unfoldable pub stops : Result String Outcome → Bool
stops (err e) = false
stops (ok outcome) = outcome.stop_pipeline

unfoldable pub skipped_log : Moment → ActionLog → ActionLog
skipped_log now log = record log { status = "skipped"; completed_at = now.finished }

-- The remaining logs, once a filter has stopped the pipeline; `fails` counts from the first of them.
unfoldable pub skip_rest : Moment → (ℕ → Bool) → List (Action × ActionLog) → Progress → Progress
unfolding finish_log skipped_log
skip_rest now fails [] p = p
skip_rest now fails ((action, log) ∷ rest) p =
    skip_rest now (λ n. fails (suc n)) rest (finish_log (fails 0) (skipped_log now log) p)

unfoldable pub mark_running : Moment → ActionLog → Progress → Progress
unfolding start_log
mark_running now log p = record p {
  db = (update_action_log now.running_fails (start_log now log) p.db).1;
}

-- The log of an action as it is after the action.
unfoldable pub completed_log : Codec → Moment → Option Execution → ActionLog → ActionLog
unfolding unknown_type executed_log start_log
completed_log codec now none log = unknown_type now (start_log now log)
completed_log codec now (some (result, pctx)) log =
    executed_log codec now result (start_log now log)

unfoldable pub context_after : PipelineContext → Option Execution → PipelineContext
context_after pctx none = pctx
context_after pctx (some (result, pctx')) = pctx'

unfoldable pub stopped : Option Execution → Bool
unfolding stops
stopped none = false
stopped (some (result, pctx)) = stops result

-- The loop over the enabled actions with their logs; `moments` counts from the action at hand.
unfoldable pub run_actions :
    Codec
    → (ℕ → Moment)
    → Request
    → PipelineContext
    → List (Action × ActionLog)
    → Progress
    → Progress
unfolding execute finish_log mark_running completed_log context_after stopped skip_rest
run_actions codec moments req pctx [] p = p
run_actions codec moments req pctx ((action, log) ∷ rest) p =
    let now = moments 0 in
    let done = execute codec now req pctx action.type action.config in
    let p' =
      finish_log now.done_fails (completed_log codec now done log) (mark_running now log p) in
    let next = run_actions codec (λ n. moments (suc n)) req (context_after pctx done) rest p' in
    if stopped done then skip_rest now now.skip_fails rest p' else next
