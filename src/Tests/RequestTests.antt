-- ===== src/Tests/RequestTests.antt =====
-- The handlers of captured requests and the stream of events at a concrete input.
use hookwatch.Api.Answer.{HookCall, Server}
use hookwatch.Api.ListQuery.{ListLibs, RequestListQuery, parse_request_list_query, total_pages}
use hookwatch.Api.OpenApi.{OpenApiLibs, handle_openapi}
use hookwatch.Api.OpenApi.Document.{Describes, handle_openapi-Describes}
use hookwatch.Api.OpenApiSchema.{
  Json, field, infer_schema, item, json_array, json_number, json_object, json_text, no_fields,
  no_items,
}
use hookwatch.Api.OpenApiSchema.Fits.{Fits, IsUniform, infer_schema-Fits}
use hookwatch.Api.Paging.{all_rows}
use hookwatch.Api.Paging.ByNumber.{IsShown, pages_of-parse_request_list_query, pages_read}
use hookwatch.Api.Replay.{ReplayLibs, ReplayPayload, many_texts, one_text, replay_header}
use hookwatch.Api.Replay.Clean.{IsClean, replay_header-IsClean}
use hookwatch.Api.RequestHandlers.{EnterCall, handle_get_request, store_params}
use hookwatch.Api.RequestRemoval.{handle_delete_all_requests, handle_delete_request}
use hookwatch.Api.RequestScope.{Removes, Shows, deletions-Removes, handle_get_request-Shows}
use hookwatch.Api.Sse.{write_sse_event}
use hookwatch.Hub.{Event}
use hookwatch.Models.{Request}
use hookwatch.Prelude.{
  Bool, List, String, [], arith, false, if◌then◌else◌, nat_eq, none, pos, refl, some, split,
  string_eq, suc, to_lower, trim_space, true, zero, ℕ, ◌&&◌, ◌==◌, ◌∷◌, ◌≡◌, ◌≤◌,
}
use hookwatch.Store.RequestLists.{request_page}
use hookwatch.Tests.Samples.{ann, one_day, request_of, sample_db}
use hookwatch.Tests.Sorting.{by_insertion}
use hookwatch.Tests.WorkerTests.{sample_codec}
use hookwatch.Worker.Forward.{wrap_int64}

abbrev like_always : String → String → Bool
like_always text_value pattern_value = true

abbrev calm_entry : EnterCall
calm_entry = record { touch_now = 60_000_000_000; touch_fails = false; query_fails = false }

abbrev plain_server : Server
plain_server = record { auth_mode = "local"; cfg = one_day }

abbrev anns_call : HookCall
anns_call = record {
  token_id = "hook";
  user = some ann;
  load_now = 60_000_000_000;
  get_fails = false;
  grant_fails = false;
}

handle_get_request-Shows_example :
    Shows plain_server anns_call "r1" sample_db
      (handle_get_request plain_server anns_call calm_entry "r1" sample_db)
handle_get_request-Shows_example =
    handle_get_request-Shows plain_server anns_call calm_entry "r1" sample_db

deletions-Removes_example :
    Removes
      (λ q. q.token_id == "hook" && q.uuid == "r1")
      plain_server
      anns_call
      sample_db
      (handle_delete_request plain_server anns_call calm_entry "r1" sample_db)
    × Removes
        (λ q. q.token_id == "hook")
        plain_server
        anns_call
        sample_db
        (handle_delete_all_requests plain_server anns_call calm_entry sample_db)
deletions-Removes_example = deletions-Removes plain_server anns_call calm_entry "r1" sample_db

abbrev three_requests : List Request
three_requests = request_of "r1" ∷ request_of "r2" ∷ request_of "r3" ∷ []

-- Texts of the numbers that are needed, and a query of two requests on each page.
abbrev list_libs : ListLibs
list_libs = record {
  atoi = λ s.
      if s == "1"
      then some (pos 1)
      else if s == "2"
      then some (pos 2)
      else if s == "3"
      then some (pos 3)
      else none;
  parse_time = λ s. none;
}

abbrev show_number : ℕ → String
show_number n = if n == 1 then "1" else if n == 2 then "2" else "3"

abbrev two_each : String → String
two_each name = if name == "per_page" then "2" else ""

abbrev two_per_page : RequestListQuery
two_per_page = record {
  page = 1;
  per_page = 2;
  offset = pos 0;
  sort_by = "created_at";
  order = "desc";
  method = "";
  ip = "";
  search = "";
  since = 0;
  until = 0;
}

numbers-IsShown : (k : ℕ) → k ≤ 2 → IsShown list_libs show_number (suc k)
unfolding trim_space
numbers-IsShown zero h = (refl, refl)
numbers-IsShown (suc zero) h = (refl, refl)
numbers-IsShown (suc (suc zero)) h = (refl, refl)
numbers-IsShown (suc (suc (suc k))) h = ground (arith, h)

pages_of-parse_request_list_query_example :
    pages_read list_libs two_each
      (λ k. by_insertion)
      like_always
      "hook"
      three_requests
      show_number
      2
    ≡ all_rows by_insertion like_always "hook" two_per_page three_requests
unfolding parse_request_list_query trim_space total_pages request_page wrap_int64 store_params
pages_of-parse_request_list_query_example =
    pages_of-parse_request_list_query list_libs two_each (λ k. by_insertion) like_always "hook"
      three_requests show_number two_per_page refl refl (omega arith) numbers-IsShown (λ k. refl)

abbrev sample_event : Event
sample_event = record { id = "7"; type = "request.created"; payload = "{\n}" }

written : write_sse_event sample_event ≡ "id: 7\nevent: request.created\ndata: {\ndata: }\n\n"
unfolding write_sse_event split
written = refl

abbrev openapi_libs : OpenApiLibs
openapi_libs = record {
  codec = sample_codec;
  url_path = λ u. some u;
  query_names = λ q. some (q ∷ []);
  parse_json = λ text. some json_text;
  form_fields = λ text. field "name" json_text no_fields;
  sort = λ names. names;
}

handle_openapi-Describes_example :
    Describes openapi_libs by_insertion "hook" (request_of "r1").url "post" (
      handle_openapi openapi_libs by_insertion like_always plain_server anns_call calm_entry
        sample_db)
handle_openapi-Describes_example =
    handle_openapi-Describes openapi_libs by_insertion like_always plain_server anns_call calm_entry
      sample_db (request_of "r1").url "post"

abbrev order_json : Json
order_json = json_object (
    field "name" json_text (
      field "sizes" (json_array (item (json_number true) (item (json_number true) no_items)))
        no_fields))

infer_schema-Fits_example : Fits order_json (infer_schema (λ names. names) order_json)
unfolding IsUniform infer_schema
infer_schema-Fits_example =
    infer_schema-Fits (λ names. names) (λ p. λ xs. refl) order_json
      (refl, tt, (refl, ((refl, (refl, tt)), (tt, (tt, tt))), tt))

abbrev replay_libs : ReplayLibs
replay_libs = record {
  codec = sample_codec;
  parse_url = λ u. none;
  stored_headers = λ raw. ("Host", one_text "example") ∷ ("X-Id", many_texts ("1" ∷ "2" ∷ [])) ∷ [];
  valid_request = λ m. λ u. true;
}

abbrev keep_headers : ReplayPayload
keep_headers = record {
  url = "http://example";
  preserve_headers = none;
  additional_headers = ("X-New", "3") ∷ [];
}

replay_header-IsClean_example : IsClean (replay_header replay_libs keep_headers (request_of "r1"))
unfolding to_lower trim_space
replay_header-IsClean_example =
    replay_header-IsClean replay_libs (λ key. refl) keep_headers (request_of "r1")
      ((refl, (refl, (refl, (refl, (refl, (refl, (refl, (refl, (refl, (refl, tt)))))))))), tt)
