-- ===== src/Worker/Forward.antt =====
-- internal/worker/forward.go: the request that a forward action sends.
pub mod Timeout
use hookwatch.Header.{Header, get, set}
use hookwatch.Models.{ForwardConfig}
use hookwatch.Prelude.{
  List, Option, Result, String, [], err, false, if◌then◌else◌, ltb, ltb_ℤ, nat_eq, negsuc, none,
  not, ok, pos, pos_part, some, string_eq, to_upper, ℕ, ℤ, ◌%◌, ◌&&◌, ◌*◌, ◌-◌, ◌==◌, ◌∷◌,
}
use hookwatch.Store.Db.{second}
use hookwatch.Worker.Codec.{Codec, Incoming, Moment, Outgoing, number, word}
use hookwatch.Worker.Executors.{Execution, Outcome, PipelineContext}

-- A 64-bit integer by its value modulo 2 ^ 64.
unfoldable pub wrap_int64 : ℕ → ℤ
wrap_int64 n =
    let m = n % 18_446_744_073_709_551_616 in
    if ltb m 9_223_372_036_854_775_808 then pos m else negsuc (18_446_744_073_709_551_616 - m - 1)

-- A timeout of at most maxForwardTimeout, in nanoseconds; defaultForwardTimeout where none is set.
-- The product of the seconds is a time.Duration, so it wraps around.
unfoldable pub forward_timeout : ℤ → ℤ
unfolding wrap_int64
forward_timeout seconds =
    let timeout = wrap_int64 (pos_part seconds * second) in
    if ltb_ℤ (pos 0) seconds
    then if ltb_ℤ (pos (30 * second)) timeout then pos (30 * second) else timeout
    else pos (10 * second)

unfoldable pub set_all : Codec → List (String × String) → Header → Header
set_all codec [] h = h
set_all codec ((k, v) ∷ rest) h = set_all codec rest (set (codec.canonical k) v h)

unfoldable pub with_content_type : String → Header → Header
with_content_type content_type h =
    if not (content_type == "") && get "Content-Type" h == ""
    then set "Content-Type" content_type h
    else h

unfoldable pub outgoing : Codec → PipelineContext → ForwardConfig → Outgoing
unfolding set_all with_content_type forward_timeout
outgoing codec pctx cfg = record {
  method = if cfg.method == "" then pctx.method else to_upper cfg.method;
  url = cfg.url;
  header =
      with_content_type pctx.content_type
        (set_all codec cfg.headers (set_all codec pctx.headers []));
  body = pctx.body;
  timeout = forward_timeout cfg.timeout;
}

abbrev pub answered : String → Result String Incoming → Result String Outcome
answered url (err e) = err e
answered url (ok response) = ok (record {
  status = "success";
  result_data =
      ("status_code", number response.status_code)
      ∷ ("body", word response.body)
      ∷ ("duration_ms", number response.duration_ms)
      ∷ ("url", word url)
      ∷ [];
  stop_pipeline = false;
})

-- The request is sent unless it could not be made.
unfoldable pub sent : Moment → Outgoing → Option String → Result String Outcome
sent now request (some e) = err e
sent now request none = answered request.url (now.send request)

unfoldable pub execute_forward :
    Codec → Moment → PipelineContext → Result String ForwardConfig → Execution
unfolding outgoing sent
execute_forward codec now pctx (err e) = (err e, pctx)
execute_forward codec now pctx (ok cfg) =
    (sent now (outgoing codec pctx cfg) (now.new_request (outgoing codec pctx cfg)), pctx)
