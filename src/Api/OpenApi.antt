-- ===== src/Api/OpenApi.antt =====
-- internal/api/requests_advanced.go: the OpenAPI document of the requests that a hook has captured.
pub mod Document
use Prim.Native.String as NativeString
use hookwatch.Api.Answer.{Answer, HookCall, Refusal, Server, refused, replied}
use hookwatch.Api.ListQuery.{first_non_empty}
use hookwatch.Api.OpenApiSchema.{
  Json, JsonFields, Schema, field, infer_schema, json_object, no_fields, typed,
}
use hookwatch.Api.RequestHandlers.{EnterCall, enter, request_content_type}
use hookwatch.Authz.{view}
use hookwatch.Models.{Request, Token}
use hookwatch.Prelude.{
  Bool, List, Option, Result, String, [], cut_prefix, err, if◌then◌else◌, is_some, nat_eq, none, ok,
  or_else, pos, some, string_eq, to_lower, to_upper, trim_space, ◌&&◌, ◌++◌, ◌==◌, ◌||◌, ◌∷◌,
}
use hookwatch.Store.Db.{Db, StoreError, not_found}
use hookwatch.Store.Order.{OrderBy}
use hookwatch.Store.RequestLists.{RequestListParams, stream_requests_by_token}
use hookwatch.Worker.Codec.{Codec}

-- What is outside: the path of url.Parse and the names of url.ParseQuery, `none` for an error, JSON
-- texts, the fields that decodeJSONMap gives, and slices.Sort of texts.
pub record OpenApiLibs : Type 0 where
  pub codec : Codec
  pub url_path : String → Option String
  pub query_names : String → Option (List String)
  pub parse_json : String → Option Json
  pub form_fields : String → JsonFields
  pub sort : List String → List String

abbrev hook_prefix : String → String
hook_prefix token_id = NativeString.◌++◌ "/" token_id

-- The path behind the hook's own.
unfoldable pub normalized_path : String → String → String
unfolding cut_prefix
normalized_path token_id path =
    if path == "" || path == hook_prefix token_id
    then "/"
    else elim (cut_prefix (NativeString.◌++◌ (hook_prefix token_id) "/") path) [
      | none ↦ path
      | some rest ↦ NativeString.◌++◌ "/" rest
    ]

unfoldable pub normalized_openapi_path : OpenApiLibs → String → String → String
unfolding normalized_path
normalized_openapi_path lib token_id url = elim (lib.url_path url) [
  | none ↦ "/"
  | some path ↦ normalized_path token_id path
]

-- The names of the parameters; all of them are optional texts in the query.
unfoldable pub query_parameters : OpenApiLibs → String → List String
query_parameters lib raw =
    if trim_space raw == ""
    then []
    else elim (lib.query_names raw) [ none ↦ [] | some names ↦ lib.sort names ]

-- A required body of one content type.
pub record RequestBody : Type 0 where
  pub content_type : String
  pub schema : Schema

unfoldable pub form_body : OpenApiLibs → String → JsonFields → RequestBody
form_body lib content_type no_fields = record {
  content_type = first_non_empty content_type "text/plain";
  schema = typed "string";
}
form_body lib content_type (field k v fs) = record {
  content_type = "application/x-www-form-urlencoded";
  schema = infer_schema lib.sort (json_object (field k v fs));
}

unfoldable pub json_or_form : OpenApiLibs → String → Request → Option Json → RequestBody
unfolding form_body
json_or_form lib content_type req (some v) = record {
  content_type = "application/json";
  schema = infer_schema lib.sort v;
}
json_or_form lib content_type req none = form_body lib content_type (lib.form_fields req.form_data)

unfoldable pub request_body : OpenApiLibs → Request → Option RequestBody
unfolding json_or_form
request_body lib req =
    if trim_space req.content == "" && trim_space req.form_data == ""
    then none
    else let content_type = request_content_type lib.codec req.headers in
      some (
        json_or_form lib content_type req (
          if lib.codec.contains (to_lower content_type) "json"
          then lib.parse_json req.content
          else none))

pub record Operation : Type 0 where
  pub summary : String
  pub parameters : List String
  pub body : Option RequestBody

unfoldable pub build_operation : OpenApiLibs → String → Request → Operation
unfolding query_parameters request_body
build_operation lib path req = record {
  summary =
      NativeString.◌++◌ "Captured "
        (NativeString.◌++◌ (to_upper req.method) (NativeString.◌++◌ " " path));
  parameters = query_parameters lib req.query;
  body = request_body lib req;
}

-- Go's maps of the document: lists of keys with their values.
abbrev pub Entries : Type 0 → Type 0
Entries A = List (String × A)

abbrev pub Paths : Type 0
Paths = Entries (Entries Operation)

module _ {A : Type 0} where
  abbrev pub entry_at : String → Entries A → Option A
  entry_at key [] = none
  entry_at key ((k, a) ∷ m) = if k == key then some a else entry_at key m

  abbrev pub put_entry : String → A → Entries A → Entries A
  put_entry key value [] = (key, value) ∷ []
  put_entry key value ((k, a) ∷ m) =
      let rest = put_entry key value m in if k == key then (k, value) ∷ m else (k, a) ∷ rest

-- The operation of a method stays the first one that was put there.
unfoldable pub with_operation : String → Operation → Entries Operation → Entries Operation
with_operation method op items =
    if is_some (entry_at method items) then items else put_entry method op items

-- The callback of getOpenAPISpec.
unfoldable pub add_request : OpenApiLibs → String → Request → Paths → Paths
unfolding with_operation build_operation normalized_openapi_path
add_request lib token_id req paths =
    let path = normalized_openapi_path lib token_id req.url in
    put_entry path
      (with_operation (to_lower req.method) (build_operation lib path req)
        (or_else (entry_at path paths) []))
      paths

unfoldable pub add_requests : OpenApiLibs → String → List Request → Paths → Paths
unfolding add_request
add_requests lib token_id [] paths = paths
add_requests lib token_id (r ∷ rs) paths =
    add_requests lib token_id rs (add_request lib token_id r paths)

unfoldable pub openapi_streamed :
    OpenApiLibs → String → Result StoreError (List Request) → Answer Paths
unfolding add_requests
openapi_streamed lib token_id (err not_found) = refused (404, "token not found")
openapi_streamed lib token_id (err e) = refused (500, "failed to generate OpenAPI spec")
openapi_streamed lib token_id (ok requests) = replied 200 (add_requests lib token_id requests [])

abbrev pub no_params : RequestListParams
no_params = record {
  limit = pos 0;
  offset = pos 0;
  sort_by = "";
  order = "";
  method = "";
  ip = "";
  search = "";
  since = 0;
  until = 0;
}

unfoldable pub openapi_entered :
    OpenApiLibs
    → OrderBy Request
    → (String → String → Bool)
    → EnterCall
    → String
    → Result Refusal Token × Db
    → Answer Paths × Db
unfolding openapi_streamed
openapi_entered lib order like call token_id (err r, db) = (refused r, db)
openapi_entered lib order like call token_id (ok token, db) = (
  openapi_streamed lib token_id
      (stream_requests_by_token order like call.query_fails token_id no_params db),
  db,
)

-- getOpenAPISpec, by the paths of the document; the rest of it is fixed but for the hook in the title.
unfoldable pub handle_openapi :
    OpenApiLibs
    → OrderBy Request
    → (String → String → Bool)
    → Server
    → HookCall
    → EnterCall
    → Db
    → Answer Paths × Db
unfolding openapi_entered
handle_openapi lib order like server hook_call call db =
    openapi_entered lib order like call hook_call.token_id (enter server hook_call call view db)
