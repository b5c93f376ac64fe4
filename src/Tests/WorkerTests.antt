-- ===== src/Tests/WorkerTests.antt =====
-- The pipeline of actions at a concrete input.
use hookwatch.Prelude.{
  String, [], arith, err, false, negsuc, none, ok, pos, refl, some, suc, zero, ℕ, ◌*◌, ◌∷◌, ◌≡◌,
  ◌≤ℤ◌,
}
use hookwatch.Store.ActionLogs.{create_action_log}
use hookwatch.Store.Db.{second}
use hookwatch.Tests.Samples.{request_of, sample_db}
use hookwatch.Tests.Sorting.{by_insertion}
use hookwatch.Worker.Codec.{Codec, Moment}
use hookwatch.Worker.Execution.{Run, create_logs, execute_actions, with_logs}
use hookwatch.Worker.Forward.{forward_timeout}
use hookwatch.Worker.Forward.Timeout.{forward_timeout-bounds}
use hookwatch.Worker.Report.{IsOrderly, action_ids, execute_actions-IsOrderly}

abbrev pub sample_codec : Codec
sample_codec = record {
  parse_forward = λ s. err "no forward";
  parse_filter =
      λ s. ok (record { field = "method"; operator = "equals"; value = "GET"; negate = false });
  parse_delay = λ s. ok (record { duration_ms = pos 5 });
  parse_transform = λ s. err "no transform";
  parse_object = λ s. some [];
  encode_data = λ d. some "{}";
  encode_log = λ l. some "{}";
  canonical = λ k. k;
  contains = λ s. λ t. false;
  match_regexp = λ p. λ s. none;
}

abbrev pub calm_moment : Moment
calm_moment = record {
  started = 0;
  finished = 0;
  new_request = λ o. none;
  send = λ o. err "unreachable";
  cancelled = none;
  running_fails = false;
  done_fails = false;
  skip_fails = λ n. false;
}

-- The identifiers of the logs.
abbrev log_id : ℕ → String
log_id zero = "l0"
log_id (suc zero) = "l1"
log_id (suc (suc n)) = "l2"

abbrev pub calm_run : Run
calm_run = record {
  list_fails = false;
  create_fails = λ n. false;
  ids = log_id;
  moments = λ n. calm_moment;
}

execute_actions-IsOrderly_example :
    IsOrderly
      (execute_actions sample_codec by_insertion calm_run "hook"
        (request_of "r1")
        sample_db).published
    × (action_ids
          (execute_actions sample_codec by_insertion calm_run "hook"
            (request_of "r1")
            sample_db).published
        ≡ "a" ∷ "b" ∷ [])
unfolding create_logs with_logs create_action_log
execute_actions-IsOrderly_example =
    execute_actions-IsOrderly sample_codec by_insertion calm_run "hook" (request_of "r1") sample_db
      refl refl

forward_timeout-bounds_example :
    (pos second ≤ℤ forward_timeout (pos 45)) × (forward_timeout (pos 45) ≤ℤ pos (30 * second))
forward_timeout-bounds_example = forward_timeout-bounds (pos 45) (omega arith)

-- With more seconds the product wraps around to a negative timeout.
timeout_wraps : forward_timeout (pos 9_223_372_037) ≡ negsuc 9_223_372_036_709_551_615
unfolding forward_timeout
timeout_wraps = refl
