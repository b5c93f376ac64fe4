-- ===== src/Api/Compare.antt =====
-- internal/api/requests_advanced.go: the comparison of two captured requests.
use hookwatch.Api.Answer.{Answer, HookCall, Refusal, Server, refused, replied}
use hookwatch.Api.RequestHandlers.{EnterCall, enter, request_content_type}
use hookwatch.Authz.{view}
use hookwatch.Models.{Request, Time, Token}
use hookwatch.Prelude.{
  Bool, List, Option, Result, String, [], arith, eq_iff, err, if◌then◌else◌, map, nat_eq, not, ok,
  or_else, refl, string_eq, to_lower, trim_space, ◌==◌, ◌||◌, ◌∷◌, ◌≡◌,
}
use hookwatch.Store.Db.{Db, StoreError, not_found}
use hookwatch.Store.Requests.{get_request}
use hookwatch.Worker.Codec.{Codec}

-- requestDiffSection
pub record DiffSection : Type 0 where
  pub key : String
  pub label : String
  pub format : String
  pub left_text : String
  pub right_text : String
  pub changed : Bool

-- What is outside: `reprint_json` is json.Unmarshal and MarshalIndent of a JSON text, `none` for an error
-- of either, and `reprint_query` ParseQuery and MarshalIndent; `show_time` is the format RFC 3339.
pub record DiffLibs : Type 0 where
  pub codec : Codec
  pub reprint_json : String → Option String
  pub reprint_query : String → Option String
  pub show_time : Time → String

unfoldable pub build_diff_section : String → String → String → String → String → DiffSection
build_diff_section key label format left_text right_text = record {
  key = key;
  label = label;
  format = format;
  left_text = left_text;
  right_text = right_text;
  changed = not (left_text == right_text);
}

-- normalizeQueryForDiff and normalizeJSONForDiff: a text that does not parse stays as it is.
unfoldable pub normalize_query_for_diff : DiffLibs → String → String
normalize_query_for_diff lib raw =
    if trim_space raw == "" then "" else or_else (lib.reprint_query raw) raw

unfoldable pub normalize_json_for_diff : DiffLibs → String → String
normalize_json_for_diff lib raw =
    if trim_space raw == "" then "" else or_else (lib.reprint_json raw) raw

-- Whether the content type of a request says JSON.
unfoldable pub is_json_request : DiffLibs → Request → Bool
is_json_request lib req =
    lib.codec.contains (to_lower (request_content_type lib.codec req.headers)) "json"

unfoldable pub normalize_body_for_diff : DiffLibs → Request → String
unfolding is_json_request normalize_json_for_diff
normalize_body_for_diff lib req =
    if is_json_request lib req then normalize_json_for_diff lib req.content else req.content

unfoldable pub detect_body_format : DiffLibs → Request → Request → String
unfolding is_json_request
detect_body_format lib l r =
    if is_json_request lib l || is_json_request lib r then "json" else "text"

-- The nine sections of diffRequests.
unfoldable pub diff_sections : DiffLibs → Request → Request → List DiffSection
unfolding build_diff_section normalize_query_for_diff normalize_json_for_diff
    normalize_body_for_diff detect_body_format
diff_sections lib l r =
    build_diff_section "method" "Method" "text" l.method r.method
    ∷ build_diff_section "url" "URL" "text" l.url r.url
    ∷ build_diff_section "query" "Query" "json" (normalize_query_for_diff lib l.query)
        (normalize_query_for_diff lib r.query)
    ∷ build_diff_section "headers" "Headers" "json" (normalize_json_for_diff lib l.headers)
        (normalize_json_for_diff lib r.headers)
    ∷ build_diff_section "form_data" "Form data" "json" (normalize_json_for_diff lib l.form_data)
        (normalize_json_for_diff lib r.form_data)
    ∷ build_diff_section "body" "Body" (detect_body_format lib l r) (normalize_body_for_diff lib l)
        (normalize_body_for_diff lib r)
    ∷ build_diff_section "ip" "IP address" "text" l.ip r.ip
    ∷ build_diff_section "user_agent" "User agent" "text" l.user_agent r.user_agent
    ∷ build_diff_section "received_at" "Received" "text" (lib.show_time l.created_at)
        (lib.show_time r.created_at)
    ∷ []

-- requestDiffResponse
pub record DiffResponse : Type 0 where
  pub left_id : String
  pub right_id : String
  pub sections : List DiffSection

abbrev side_refusal : String → String → StoreError → Refusal
side_refusal missing failed not_found = (404, missing)
side_refusal missing failed e = (500, failed)

unfoldable pub diff_found :
    DiffLibs → Result StoreError Request → Result StoreError Request → Answer DiffResponse
unfolding diff_sections
diff_found lib (err e) r =
    refused (side_refusal "left request not found" "failed to get left request" e)
diff_found lib (ok l) (err e) =
    refused (side_refusal "right request not found" "failed to get right request" e)
diff_found lib (ok l) (ok r) =
    replied 200 record { left_id = l.uuid; right_id = r.uuid; sections = diff_sections lib l r }

unfoldable pub diff_entered :
    DiffLibs
    → EnterCall
    → Bool
    → String
    → String
    → String
    → Result Refusal Token × Db
    → Answer DiffResponse × Db
unfolding diff_found
diff_entered lib call right_fails id left_id right_id (err r, db) = (refused r, db)
diff_entered lib call right_fails id left_id right_id (ok token, db) = (
  diff_found lib (get_request call.query_fails id left_id db)
      (get_request right_fails id right_id db),
  db,
)

-- diffRequests; `right_fails` is a failure of the query for the right request.
unfoldable pub handle_diff :
    DiffLibs
    → Server
    → HookCall
    → EnterCall
    → Bool
    → String
    → String
    → Db
    → Answer DiffResponse × Db
unfolding diff_entered
handle_diff lib server hook_call call right_fails left_raw right_raw db =
    if trim_space left_raw == "" || trim_space right_raw == ""
    then (refused (400, "left and right request IDs are required"), db)
    else diff_entered lib call right_fails hook_call.token_id (trim_space left_raw)
        (trim_space right_raw) (enter server hook_call call view db)

abbrev turn : DiffSection → DiffSection
turn s = record s { left_text = s.right_text; right_text = s.left_text }

same_mark : (a b : String) → not (b == a) ≡ not (a == b)
same_mark a b = ground (arith, eq_iff a b, eq_iff b a)

build_diff_section_turned :
    (key label format a b : String)
    → build_diff_section key label format b a ≡ turn (build_diff_section key label format a b)
unfolding build_diff_section
build_diff_section_turned key label format a b = rw (same_mark a b) refl

detect_body_format_turned :
    (lib : DiffLibs) (l r : Request) → detect_body_format lib r l ≡ detect_body_format lib l r
unfolding detect_body_format
detect_body_format_turned lib l r = ground arith

-- Two requests compared from the other side give the same sections in the same order, of the same
-- formats, marked alike, with their texts exchanged.
diff_sections_turned :
    (lib : DiffLibs) (l r : Request) → diff_sections lib r l ≡ map turn (diff_sections lib l r)
unfolding diff_sections
diff_sections_turned lib l r =
    rw
      (
        detect_body_format_turned lib l r,
        build_diff_section_turned "method" "Method" "text" l.method r.method,
        build_diff_section_turned "url" "URL" "text" l.url r.url,
        build_diff_section_turned "query" "Query" "json" (normalize_query_for_diff lib l.query)
            (normalize_query_for_diff lib r.query),
        build_diff_section_turned "headers" "Headers" "json" (normalize_json_for_diff lib l.headers)
            (normalize_json_for_diff lib r.headers),
        build_diff_section_turned "form_data" "Form data" "json"
            (normalize_json_for_diff lib l.form_data) (normalize_json_for_diff lib r.form_data),
        build_diff_section_turned "body" "Body" (detect_body_format lib l r)
            (normalize_body_for_diff lib l) (normalize_body_for_diff lib r),
        build_diff_section_turned "ip" "IP address" "text" l.ip r.ip,
        build_diff_section_turned "user_agent" "User agent" "text" l.user_agent r.user_agent,
        build_diff_section_turned "received_at" "Received" "text" (lib.show_time l.created_at)
            (lib.show_time r.created_at),
      )
      refl
