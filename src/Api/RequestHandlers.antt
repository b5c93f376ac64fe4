-- ===== src/Api/RequestHandlers.antt =====
-- internal/api/requests.go: the handlers that list and show captured requests. What toRequestResponse
-- encodes of a request is its fields.
use hookwatch.Api.Answer.{Answer, HookCall, Refusal, Server, open_hook, refused, replied}
use hookwatch.Api.Expiry.{refresh_token_expiry}
use hookwatch.Api.ListQuery.{ListLibs, RequestListQuery, parse_request_list_query, total_pages}
use hookwatch.Authz.{HookAction, view}
use hookwatch.Header.{get}
use hookwatch.Models.{Request, Time, Token}
use hookwatch.Prelude.{
  Bool, List, Option, Result, String, [], err, if◌then◌else◌, nat_eq, none, ok, or_else, pos, some,
  string_eq, trim_space, ℕ, ◌==◌,
}
use hookwatch.Store.Db.{Db, StoreError, not_found}
use hookwatch.Store.Order.{OrderBy}
use hookwatch.Store.RequestLists.{RequestListParams, RequestPage, list_requests_by_token}
use hookwatch.Store.Requests.{get_request}
use hookwatch.Worker.Codec.{Codec, JsonValue, other, text}
use hookwatch.Worker.Executors.{lookup}

-- What happens outside after the load: the clock at the touch, and which calls of the store fail.
pub record EnterCall : Type 0 where
  pub touch_now : Time
  pub touch_fails : Bool
  pub query_fails : Bool

unfoldable pub refreshed_entry : Result StoreError Token × Db → Result Refusal Token × Db
refreshed_entry (err e, db) = (err (500, "failed to refresh token expiry"), db)
refreshed_entry (ok token, db) = (ok token, db)

unfoldable pub entered : Server → EnterCall → Result Refusal Token → Db → Result Refusal Token × Db
unfolding refreshed_entry
entered server call (err r) db = (err r, db)
entered server call (ok token) db =
    refreshed_entry (refresh_token_expiry call.touch_fails server.cfg call.touch_now token db)

-- The beginning of the handlers of requests: the load, the policy, and the move of the expiry.
unfoldable pub enter : Server → HookCall → EnterCall → HookAction → Db → Result Refusal Token × Db
unfolding entered
enter server hook_call call action db =
    entered server call (open_hook server hook_call action db) db

-- requestListResponse
pub record RequestList : Type 0 where
  pub requests : List Request
  pub total : ℕ
  pub page : ℕ
  pub per_page : ℕ
  pub pages : ℕ

unfoldable pub store_params : RequestListQuery → RequestListParams
store_params q = record {
  limit = pos q.per_page;
  offset = q.offset;
  sort_by = q.sort_by;
  order = q.order;
  method = q.method;
  ip = q.ip;
  search = q.search;
  since = q.since;
  until = q.until;
}

unfoldable pub listed_page : RequestListQuery → Result StoreError RequestPage → Answer RequestList
listed_page q (err not_found) = refused (404, "token not found")
listed_page q (err e) = refused (500, "failed to list requests")
listed_page q (ok page) = replied 200 record {
  requests = page.requests;
  total = page.total;
  page = q.page;
  per_page = q.per_page;
  pages = total_pages page.total q.per_page;
}

unfoldable pub list_entered :
    OrderBy Request
    → (String → String → Bool)
    → EnterCall
    → String
    → RequestListQuery
    → Result Refusal Token × Db
    → Answer RequestList × Db
unfolding listed_page store_params
list_entered order like call id q (err r, db) = (refused r, db)
list_entered order like call id q (ok token, db) =
    (listed_page q (list_requests_by_token order like call.query_fails id (store_params q) db), db)

unfoldable pub list_parsed :
    OrderBy Request
    → (String → String → Bool)
    → Server
    → HookCall
    → EnterCall
    → Result String RequestListQuery
    → Db
    → Answer RequestList × Db
unfolding list_entered
list_parsed order like server hook_call call (err message) db = (refused (400, message), db)
list_parsed order like server hook_call call (ok q) db =
    list_entered order like call hook_call.token_id q (enter server hook_call call view db)

-- listRequests
unfoldable pub handle_list_requests :
    ListLibs
    → OrderBy Request
    → (String → String → Bool)
    → Server
    → HookCall
    → EnterCall
    → (String → String)
    → Db
    → Answer RequestList × Db
unfolding list_parsed
handle_list_requests lib order like server hook_call call get db =
    list_parsed order like server hook_call call (parse_request_list_query lib get) db

-- A request that was looked up for a handler.
unfoldable pub found_request : Result StoreError Request → Result Refusal Request
found_request (err not_found) = err (404, "request not found")
found_request (err e) = err (500, "failed to get request")
found_request (ok req) = ok req

unfoldable pub get_entered :
    EnterCall → String → String → Result Refusal Token × Db → Result Refusal Request × Db
unfolding found_request
get_entered call token_id request_id (err r, db) = (err r, db)
get_entered call token_id request_id (ok token, db) =
    (found_request (get_request call.query_fails token_id request_id db), db)

-- The common part of getRequest and getRawRequest.
unfoldable pub request_of_hook :
    Server → HookCall → EnterCall → String → Db → Result Refusal Request × Db
unfolding get_entered
request_of_hook server hook_call call request_id db =
    get_entered call hook_call.token_id request_id (enter server hook_call call view db)

unfoldable pub shown_request : Result Refusal Request × Db → Answer Request × Db
shown_request (err r, db) = (refused r, db)
shown_request (ok req, db) = (replied 200 req, db)

-- getRequest
unfoldable pub handle_get_request :
    Server → HookCall → EnterCall → String → Db → Answer Request × Db
unfolding shown_request
handle_get_request server hook_call call request_id db =
    shown_request (request_of_hook server hook_call call request_id db)

abbrev text_value : Option JsonValue → Option String
text_value none = none
text_value (some (other s)) = none
text_value (some (text s)) = if trim_space s == "" then none else some s

-- requestContentType, with decodeJSONMap as in the worker: the first key with a text that is not blank.
unfoldable pub request_content_type : Codec → String → String
unfolding lookup
request_content_type codec raw =
    let headers = if trim_space raw == "" then [] else or_else (codec.parse_object raw) [] in
    or_else (text_value (lookup "Content-Type" headers))
      (or_else (text_value (lookup "content-type" headers)) "application/octet-stream")

unfoldable pub raw_request : Codec → Result Refusal Request × Db → Answer (String × String) × Db
unfolding request_content_type
raw_request codec (err r, db) = (refused r, db)
raw_request codec (ok req, db) =
    (replied 200 (request_content_type codec req.headers, req.content), db)

-- getRawRequest: the content type and the body.
unfoldable pub handle_get_raw_request :
    Codec → Server → HookCall → EnterCall → String → Db → Answer (String × String) × Db
unfolding raw_request
handle_get_raw_request codec server hook_call call request_id db =
    raw_request codec (request_of_hook server hook_call call request_id db)
