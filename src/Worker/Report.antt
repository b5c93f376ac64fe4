-- ===== src/Worker/Report.antt =====
-- internal/worker/worker.go: the logs that a run of the pipeline publishes.
use hookwatch.Models.{Action, ActionLog, Request}
use hookwatch.Prelude.{
  All, Bool, List, String, [], all, ap, arith, false, inl, inr, map, nat_eq, refl, select,
  string_eq, suc, sym, true, ℕ, ◌++◌, ◌==◌, ◌∙◌, ◌∷◌, ◌≡◌, ◌⊎◌,
}
use hookwatch.Store.Actions.{list_actions_by_token}
use hookwatch.Store.Db.{Db}
use hookwatch.Store.Order.{OrderBy}
use hookwatch.Worker.Codec.{Codec, Moment}
use hookwatch.Worker.Completion.{
  IsExecuted, IsSkipped, completed-action, completed-status, execute-settled,
}
use hookwatch.Worker.Execution.{
  Run, create_logs, execute_actions, initial_context, pending_log, run_listed, run_logged,
  with_logs,
}
use hookwatch.Worker.Executors.{PipelineContext}
use hookwatch.Worker.Pipeline.{
  Progress, completed_log, context_after, execute, finish_log, mark_running, run_actions, skip_rest,
  skipped_log,
}
use mathlib.Core.List.{append-nil, append_assoc}

-- Actions that were executed, and from the first that was skipped on only skipped ones.
unfoldable pub IsOrderly : List ActionLog → Type 0
IsOrderly [] = Unit
IsOrderly (log ∷ logs) = (IsExecuted log × IsOrderly logs) ⊎ (IsSkipped log × All IsSkipped logs)

abbrev pub action_ids : List ActionLog → List String
action_ids logs = map (λ l. l.action_id) logs

abbrev log_ids : List (Action × ActionLog) → List String
log_ids work = map (λ w. w.1.action_id) work

-- What `before` was extended by, for the work that was left.
abbrev Extended :
    (List ActionLog → Type 0) → List ActionLog → List ActionLog → List (Action × ActionLog) → Type 0
Extended P before after work =
    (logs : List ActionLog) × (after ≡ before ++ logs) × (action_ids logs ≡ log_ids work) × P logs

-- One more log in front.
extend :
    (P Q : List ActionLog → Type 0) (action : Action) (log log' : ActionLog)
    → (work : List (Action × ActionLog)) (before after : List ActionLog)
    → log'.action_id ≡ log.action_id
    → ((logs : List ActionLog) → P logs → Q (log' ∷ logs))
    → Extended P (before ++ log' ∷ []) after work
    → Extended Q before after ((action, log) ∷ work)
extend P Q action log log' work before after same grow (logs, e, ids, all) = (
  log' ∷ logs,
  e ∙ append_assoc before (log' ∷ []) logs,
  ap (λ i. i ∷ action_ids logs) same ∙ ap (λ l. log.action_id ∷ l) ids,
  grow logs all,
)

skip_rest-IsSkipped :
    (now : Moment) (fails : ℕ → Bool) (work : List (Action × ActionLog)) (p : Progress)
    → Extended (All IsSkipped) p.published (skip_rest now fails work p).published work
unfolding skip_rest finish_log skipped_log
skip_rest-IsSkipped now fails [] p = ([], sym (append-nil p.published), refl, tt)
skip_rest-IsSkipped now fails ((action, log) ∷ work) p =
    let p' = finish_log (fails 0) (skipped_log now log) p in
    extend (All IsSkipped) (All IsSkipped) action log (skipped_log now log) work p.published
      (skip_rest now (λ n. fails (suc n)) work p').published refl (λ logs rest. (refl, rest))
      (skip_rest-IsSkipped now (λ n. fails (suc n)) work p')

-- The loop reports each action once and in order: those executed first, and after one that was
-- skipped only skipped ones.
run_actions-IsOrderly :
    (codec : Codec) (moments : ℕ → Moment) (req : Request) (pctx : PipelineContext)
    → (work : List (Action × ActionLog)) (p : Progress)
    → Extended IsOrderly p.published (run_actions codec moments req pctx work p).published work
unfolding run_actions finish_log mark_running IsOrderly
run_actions-IsOrderly codec moments req pctx [] p = ([], sym (append-nil p.published), refl, tt)
run_actions-IsOrderly codec moments req pctx ((action, log) ∷ work) p =
    let now = moments 0 in
    let done = execute codec now req pctx action.type action.config in
    let log' = completed_log codec now done log in
    let p' = finish_log now.done_fails log' (mark_running now log p) in
    elim (completed-status codec now done log
      (execute-settled codec now req pctx action.type action.config)) [
        | inl (go, status) ↦ rw go (
            extend IsOrderly IsOrderly action log log' work p.published
              (run_actions codec (λ n. moments (suc n)) req (context_after pctx done) work
                p').published
              (completed-action codec now done log) (λ logs rest. inl (status, rest))
              (run_actions-IsOrderly codec (λ n. moments (suc n)) req (context_after pctx done) work
                p'))
        | inr (halt, status) ↦ rw halt (
            extend (All IsSkipped) IsOrderly action log log' work p.published
              (skip_rest now now.skip_fails work p').published (completed-action codec now done log)
              (λ logs rest. inr (status, rest)) (skip_rest-IsSkipped now now.skip_fails work p'))
      ]

with_logs-ids :
    (ids : ℕ → String) (req : Request) (actions : List Action)
    → log_ids (with_logs ids req actions) ≡ map (λ a. a.uuid) actions
unfolding with_logs pending_log
with_logs-ids ids req [] = refl
with_logs-ids ids req (a ∷ actions) =
    ap (λ l. a.uuid ∷ l) (with_logs-ids (λ n. ids (suc n)) req actions)

-- The enabled actions of a hook, in their order.
abbrev pub enabled_actions : OrderBy Action → String → Db → List Action
enabled_actions order token_id db =
    select (λ a. a.enabled)
      (order.sort (λ a. a.sort_order) (select (λ a. a.token_id == token_id) db.actions))

logged :
    (codec : Codec) (run : Run) (req : Request) (work : List (Action × ActionLog))
    → {ids : List String} (made : Bool × Db) → made.0 ≡ true
    → log_ids work ≡ ids
    → IsOrderly (run_logged codec run req work made).published
      × (action_ids (run_logged codec run req work made).published ≡ ids)
unfolding run_logged
logged codec run req work (false, db) h e = ground (arith, h)
logged codec run req work (true, db) h e =
    let (logs, same, ids', orderly) =
      run_actions-IsOrderly codec run.moments req (initial_context codec req) work
        (record { db = db; published = [] }) in
    rw same (orderly, ids' ∙ e)

-- Once the actions are listed and their logs created, whatever fails later, ExecuteActions calls
-- publishActionCompleted with a log for each enabled action of the hook, once and in the actions'
-- order: first those that were executed, and from the first that a filter skipped on only skipped
-- ones.
pub execute_actions-IsOrderly :
    (codec : Codec) (order : OrderBy Action) (run : Run) (token_id : String) (req : Request)
    → (db : Db) → run.list_fails ≡ false
    → (create_logs run.create_fails
        (with_logs run.ids req (enabled_actions order token_id db))
        db).0
      ≡ true
    → IsOrderly (execute_actions codec order run token_id req db).published
      × (action_ids (execute_actions codec order run token_id req db).published
          ≡ map (λ a. a.uuid) (enabled_actions order token_id db))
unfolding execute_actions run_listed list_actions_by_token
execute_actions-IsOrderly codec order run token_id req db listed created =
    let work = with_logs run.ids req (enabled_actions order token_id db) in
    rw listed (
      logged codec run req work (create_logs run.create_fails work db) created
        (with_logs-ids run.ids req (enabled_actions order token_id db)))
