-- ===== src/Worker/Completion.antt =====
-- internal/worker/worker.go: each enabled action is reported once and in order, whatever fails.
use hookwatch.Models.{ActionLog, DelayConfig, FilterConfig, ForwardConfig, Request, TransformConfig}
use hookwatch.Prelude.{
  Bool-cases, Option, Option-cases, Result, String, err, false, inl, inr, nat_eq, none, ok, refl,
  some, string_eq, true, ◌==◌, ◌≡◌, ◌⊎◌,
}
use hookwatch.Worker.Codec.{Codec, Incoming, Moment, Outgoing}
use hookwatch.Worker.Executors.{
  Execution, Outcome, PipelineContext, execute_delay, execute_filter, execute_transform,
  filter_matches,
}
use hookwatch.Worker.Forward.{answered, execute_forward, outgoing, sent}
use hookwatch.Worker.Pipeline.{
  completed_log, execute, executed_log, start_log, stopped, stops, unknown_type,
}

-- An outcome either succeeds, or skips and stops the pipeline.
unfoldable pub IsSettled : Outcome → Type 0
IsSettled o =
    ((o.status ≡ "success") × (o.stop_pipeline ≡ false))
    ⊎ ((o.status ≡ "skipped") × (o.stop_pipeline ≡ true))

unfoldable pub IsSettledExecution : Option Execution → Type 0
unfolding IsSettled
IsSettledExecution none = Unit
IsSettledExecution (some (err e, pctx)) = Unit
IsSettledExecution (some (ok o, pctx)) = IsSettled o

filter-settled :
    (codec : Codec) (req : Request) (pctx : PipelineContext) (cfg : Result String FilterConfig)
    → IsSettledExecution (some (execute_filter codec req pctx cfg))
unfolding execute_filter IsSettledExecution
filter-settled codec req pctx (err e) = tt
filter-settled codec req pctx (ok cfg) = elim (Bool-cases (filter_matches codec req pctx cfg)) [
  | inl e ↦ rw e (inl (refl, refl))
  | inr e ↦ rw e (inr (refl, refl))
]

delay-settled :
    (now : Moment) (pctx : PipelineContext) (cfg : Result String DelayConfig)
    → IsSettledExecution (some (execute_delay now pctx cfg))
unfolding execute_delay IsSettledExecution
delay-settled now pctx (err e) = tt
delay-settled now pctx (ok cfg) = elim (Option-cases now.cancelled) [
  | inl e ↦ rw e (inl (refl, refl))
  | inr (reason, e) ↦ rw e tt
]

transform-settled :
    (pctx : PipelineContext) (cfg : Result String TransformConfig)
    → IsSettledExecution (some (execute_transform pctx cfg))
unfolding execute_transform IsSettledExecution
transform-settled pctx (err e) = tt
transform-settled pctx (ok cfg) = inl (refl, refl)

answered-settled :
    (pctx : PipelineContext) (url : String) (r : Result String Incoming)
    → IsSettledExecution (some (answered url r, pctx))
unfolding IsSettledExecution
answered-settled pctx url (err e) = tt
answered-settled pctx url (ok r) = inl (refl, refl)

sent-settled :
    (now : Moment) (pctx : PipelineContext) (request : Outgoing) (refused : Option String)
    → IsSettledExecution (some (sent now request refused, pctx))
unfolding sent IsSettledExecution
sent-settled now pctx request (some e) = tt
sent-settled now pctx request none = answered-settled pctx request.url (now.send request)

forward-settled :
    (codec : Codec) (now : Moment) (pctx : PipelineContext) (cfg : Result String ForwardConfig)
    → IsSettledExecution (some (execute_forward codec now pctx cfg))
unfolding execute_forward IsSettledExecution
forward-settled codec now pctx (err e) = tt
forward-settled codec now pctx (ok cfg) =
    sent-settled now pctx (outgoing codec pctx cfg) (now.new_request (outgoing codec pctx cfg))

pub execute-settled :
    (codec : Codec) (now : Moment) (req : Request) (pctx : PipelineContext) (type config : String)
    → IsSettledExecution (execute codec now req pctx type config)
unfolding execute IsSettledExecution
execute-settled codec now req pctx type config = elim (Bool-cases (type == "forward")) [
  | inl a ↦ rw a (forward-settled codec now pctx (codec.parse_forward config))
  | inr a ↦ elim (Bool-cases (type == "filter")) [
    | inl b ↦ rw (a, b) (filter-settled codec req pctx (codec.parse_filter config))
    | inr b ↦ elim (Bool-cases (type == "delay")) [
      | inl c ↦ rw (a, b, c) (delay-settled now pctx (codec.parse_delay config))
      | inr c ↦ elim (Bool-cases (type == "transform")) [
        | inl d ↦ rw (a, b, c, d) (transform-settled pctx (codec.parse_transform config))
        | inr d ↦ rw (a, b, c, d) tt
      ]
    ]
  ]
]

-- The status of a log after its action.
abbrev pub IsExecuted : ActionLog → Type 0
IsExecuted log = (log.status ≡ "success") ⊎ (log.status ≡ "failed")

abbrev pub IsSkipped : ActionLog → Type 0
IsSkipped log = log.status ≡ "skipped"

pub completed-status :
    (codec : Codec) (now : Moment) (o : Option Execution) (log : ActionLog)
    → IsSettledExecution o
    → ((stopped o ≡ false) × IsExecuted (completed_log codec now o log))
      ⊎ ((stopped o ≡ true) × IsSkipped (completed_log codec now o log))
unfolding completed_log stopped executed_log unknown_type stops IsSettledExecution
completed-status codec now none log h = inl (refl, inr refl)
completed-status codec now (some (err e, pctx)) log h = inl (refl, inr refl)
completed-status codec now (some (ok o, pctx)) log (inl (s, t)) = inl (t, inl s)
completed-status codec now (some (ok o, pctx)) log (inr (s, t)) = inr (t, s)

pub completed-action :
    (codec : Codec) (now : Moment) (o : Option Execution) (log : ActionLog)
    → (completed_log codec now o log).action_id ≡ log.action_id
unfolding completed_log executed_log unknown_type start_log
completed-action codec now none log = refl
completed-action codec now (some (err e, pctx)) log = refl
completed-action codec now (some (ok o, pctx)) log = refl
