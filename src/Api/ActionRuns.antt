-- ===== src/Api/ActionRuns.antt =====
-- internal/api/actions.go with internal/worker: an action that was validated runs.
use hookwatch.Api.ActionConfig.{
  ActionLibs, check_delay, check_filter, check_forward, check_transform, is_action_type,
  validate_action_config, validate_action_type,
}
use hookwatch.Models.{DelayConfig, FilterConfig, ForwardConfig, Request, TransformConfig}
use hookwatch.Prelude.{
  Bool-cases, Option-cases, Result, String, arith, eq_iff, err, inl, inr, is_ok, is_some, nat_eq,
  ok, pos, refl, some, string_eq, true, ◌*◌, ◌==◌, ◌≡◌, ◌≤ℤ◌, ◌⊎◌,
}
use hookwatch.Store.Db.{second}
use hookwatch.Worker.Codec.{Codec, Moment}
use hookwatch.Worker.Executors.{
  Execution, PipelineContext, execute_delay, execute_filter, execute_transform,
}
use hookwatch.Worker.Forward.{execute_forward, forward_timeout, outgoing, sent}
use hookwatch.Worker.Forward.Timeout.{forward_timeout-bounds}
use hookwatch.Worker.Pipeline.{execute}

-- What the worker makes of a valid action: it succeeds, or a delay is cut off by the deadline, or it
-- is a forward, which fails only with its request, and waits between 1 and 30 seconds for it.
abbrev pub RunsWell : Codec → Moment → PipelineContext → String → String → Execution → Type 0
RunsWell codec now pctx type config e =
    (is_ok e.0 ≡ true)
    ⊎ ((type ≡ "delay") × (is_some now.cancelled ≡ true))
    ⊎ ((type ≡ "forward")
        × (cfg : ForwardConfig) × (codec.parse_forward config ≡ ok cfg)
        × (pos second ≤ℤ forward_timeout cfg.timeout)
        × (forward_timeout cfg.timeout ≤ℤ pos (30 * second))
        × (e.0 ≡ sent now (outgoing codec pctx cfg) (now.new_request (outgoing codec pctx cfg))))

-- The configuration of an action is valid for its type.
abbrev pub IsRunnable : ActionLibs → String → String → Type 0
IsRunnable lib type config =
    (validate_action_type type ≡ ok tt) × (validate_action_config lib type config ≡ ok tt)

check_forward_sound :
    (lib : ActionLibs) (now : Moment) (pctx : PipelineContext) (r : Result String ForwardConfig)
    → is_ok (check_forward lib r) ≡ true
    → (cfg : ForwardConfig) × (r ≡ ok cfg)
      × (pos second ≤ℤ forward_timeout cfg.timeout)
      × (forward_timeout cfg.timeout ≤ℤ pos (30 * second))
      × ((execute_forward lib.codec now pctx r).0
          ≡ sent now (outgoing lib.codec pctx cfg) (now.new_request (outgoing lib.codec pctx cfg)))
unfolding check_forward execute_forward
check_forward_sound lib now pctx (err e) h = ground (arith, h)
check_forward_sound lib now pctx (ok cfg) h =
    let small : cfg.timeout ≤ℤ pos 9_223_372_036 = ground (arith, h) in
    let bounds : (pos second ≤ℤ forward_timeout cfg.timeout)
        × (forward_timeout cfg.timeout ≤ℤ pos (30 * second)) =
      forward_timeout-bounds cfg.timeout small in
    (cfg, refl, bounds.0, bounds.1, refl)

check_filter_sound :
    (lib : ActionLibs) (req : Request) (pctx : PipelineContext) (r : Result String FilterConfig)
    → is_ok (check_filter lib r) ≡ true
    → is_ok (execute_filter lib.codec req pctx r).0 ≡ true
unfolding check_filter execute_filter
check_filter_sound lib req pctx (err e) h = ground (arith, h)
check_filter_sound lib req pctx (ok cfg) h = refl

check_delay_sound :
    (now : Moment) (pctx : PipelineContext) (r : Result String DelayConfig)
    → is_ok (check_delay r) ≡ true
    → (is_ok (execute_delay now pctx r).0 ≡ true) ⊎ (is_some now.cancelled ≡ true)
unfolding check_delay execute_delay
check_delay_sound now pctx (err e) h = ground (arith, h)
check_delay_sound now pctx (ok cfg) h = elim (Option-cases now.cancelled) [
  | inl e ↦ inl (rw e refl)
  | inr (c, e) ↦ inr (rw e refl)
]

check_transform_sound :
    (pctx : PipelineContext) (r : Result String TransformConfig)
    → is_ok (check_transform r) ≡ true
    → is_ok (execute_transform pctx r).0 ≡ true
unfolding check_transform execute_transform
check_transform_sound pctx (err e) h = ground (arith, h)
check_transform_sound pctx (ok cfg) h = refl

is_ok-eq : (r : Result String (Unit {0})) → r ≡ ok tt → is_ok r ≡ true
is_ok-eq r e = rw e refl

validate_action_type-known :
    (type : String) → validate_action_type type ≡ ok tt → is_action_type type ≡ true
unfolding validate_action_type
validate_action_type-known type h = elim (Bool-cases (is_action_type type)) [
  | inl e ↦ e
  | inr e ↦ ground (arith, rw e at h)
]

-- An action that passes the validation of the handlers has an executor, at any moment, on any request
-- and in any context. It succeeds, or it is a delay that the deadline cuts off, or it is a forward,
-- which ends just as its request does, and the timeout of the request is from 1 to 30 seconds.
pub validate_action_config-execute :
    (lib : ActionLibs) (type config : String) (now : Moment) (req : Request)
    (pctx : PipelineContext)
    → IsRunnable lib type config
    → (e : Execution) × (execute lib.codec now req pctx type config ≡ some e)
      × RunsWell lib.codec now pctx type config e
unfolding validate_action_config execute
validate_action_config-execute lib type config now req pctx (known, valid) =
    elim (Bool-cases (config == "")) [
      | inl b ↦ ground (arith, rw b at valid)
      | inr b ↦ elim (Bool-cases (type == "forward")) [
        | inl f ↦
            let s =
              check_forward_sound lib now pctx (lib.codec.parse_forward config)
                (is_ok-eq _ (rw (b, f) at valid)) in
            (
              execute_forward lib.codec now pctx (lib.codec.parse_forward config),
              rw f refl,
              inr (inr ((eq_iff type "forward").0 f, s.0, s.1, s.2, s.3, s.4)),
            )
        | inr f ↦ elim (Bool-cases (type == "filter")) [
          | inl g ↦ (
            execute_filter lib.codec req pctx (lib.codec.parse_filter config),
            rw (f, g) refl,
            inl (check_filter_sound lib req pctx _ (is_ok-eq _ (rw (b, f, g) at valid))),
          )
          | inr g ↦ elim (Bool-cases (type == "delay")) [
            | inl d ↦ (
              execute_delay now pctx (lib.codec.parse_delay config),
              rw (f, g, d) refl,
              elim (check_delay_sound now pctx _ (is_ok-eq _ (rw (b, f, g, d) at valid))) [
                | inl o ↦ inl o
                | inr c ↦ inr (inl ((eq_iff type "delay").0 d, c))
              ],
            )
            | inr d ↦ elim (Bool-cases (type == "transform")) [
              | inl t ↦ (
                execute_transform pctx (lib.codec.parse_transform config),
                rw (f, g, d, t) refl,
                inl (check_transform_sound pctx _ (is_ok-eq _ (rw (b, f, g, d, t) at valid))),
              )
              | inr t ↦ ground (arith, f, g, d, t, validate_action_type-known type known)
            ]
          ]
        ]
      ]
    ]
