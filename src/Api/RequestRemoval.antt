-- ===== src/Api/RequestRemoval.antt =====
-- internal/api/requests.go and export.go: the handlers that delete and export captured requests.
use Prim.Native.String as NativeString
use hookwatch.Api.Answer.{Answer, HookCall, Refusal, Server, open_hook, refused, replied}
use hookwatch.Api.ListQuery.{ListLibs, parse_export_filter_params}
use hookwatch.Api.RequestHandlers.{EnterCall, enter}
use hookwatch.Api.Secret.{prefix}
use hookwatch.Authz.{edit, view}
use hookwatch.Header.{get}
use hookwatch.Models.{Request, Token}
use hookwatch.Prelude.{Bool, List, Result, String, [], err, if◌then◌else◌, ltb, map, ok}
use hookwatch.Store.Db.{Db, StoreError, not_found}
use hookwatch.Store.Order.{OrderBy}
use hookwatch.Store.RequestLists.{stream_requests_by_token}
use hookwatch.Store.Requests.{delete_all_requests_by_token, delete_request}

unfoldable pub request_deleted :
    Refusal → String → Result StoreError (Unit {0}) × Db → Answer (Unit {0}) × Db
request_deleted missing message (err not_found, db) = (refused missing, db)
request_deleted missing message (err e, db) = (refused (500, message), db)
request_deleted missing message (ok u, db) = (replied 204 tt, db)

unfoldable pub delete_entered :
    EnterCall → String → String → Result Refusal Token × Db → Answer (Unit {0}) × Db
unfolding request_deleted
delete_entered call token_id request_id (err r, db) = (refused r, db)
delete_entered call token_id request_id (ok token, db) =
    request_deleted (404, "request not found") "failed to delete request"
      (delete_request call.query_fails token_id request_id db)

-- deleteRequest
unfoldable pub handle_delete_request :
    Server → HookCall → EnterCall → String → Db → Answer (Unit {0}) × Db
unfolding delete_entered
handle_delete_request server hook_call call request_id db =
    delete_entered call hook_call.token_id request_id (enter server hook_call call edit db)

unfoldable pub delete_all_entered :
    EnterCall → String → Result Refusal Token × Db → Answer (Unit {0}) × Db
unfolding request_deleted
delete_all_entered call token_id (err r, db) = (refused r, db)
delete_all_entered call token_id (ok token, db) =
    request_deleted (404, "token not found") "failed to delete requests"
      (delete_all_requests_by_token call.query_fails token_id db)

-- deleteAllRequests
unfoldable pub handle_delete_all_requests :
    Server → HookCall → EnterCall → Db → Answer (Unit {0}) × Db
unfolding delete_all_entered
handle_delete_all_requests server hook_call call db =
    delete_all_entered call hook_call.token_id (enter server hook_call call edit db)

-- The content of a row of the CSV: its first 10240 bytes, where a content stands byte by byte.
unfoldable pub csv_content : String → String
unfolding prefix
csv_content content =
    if ltb 10_240 (NativeString.len content) then prefix 10_240 content else content

-- What an export writes: nothing, if the rows cannot be read.
unfoldable pub exported : Result StoreError (List Request) → List Request
exported (err e) = []
exported (ok requests) = requests

-- The common part of exportCSV and exportJSON, by the rows that they write; the expiry is not moved.
-- `fails` is a failure before the first row.
unfoldable pub handle_export :
    ListLibs
    → OrderBy Request
    → (String → String → Bool)
    → Server
    → HookCall
    → Bool
    → (Request → Request)
    → (String → String)
    → Db
    → Answer (List Request)
unfolding exported
handle_export lib order like server hook_call fails row get db =
    elim (open_hook server hook_call view db) [
      | err r ↦ refused r
      | ok token ↦ replied 200 (
          map row (
            exported (
              stream_requests_by_token order like fails hook_call.token_id
                (parse_export_filter_params lib get) db)))
    ]

-- exportCSV: the columns of a row, but for the cut of its content, are fields of the request.
unfoldable pub handle_export_csv :
    ListLibs
    → OrderBy Request
    → (String → String → Bool)
    → Server
    → HookCall
    → Bool
    → (String → String)
    → Db
    → Answer (List Request)
unfolding handle_export csv_content
handle_export_csv lib order like server hook_call fails get db =
    handle_export lib order like server hook_call fails
      (λ r. record r { content = csv_content r.content }) get db

unfoldable pub handle_export_json :
    ListLibs
    → OrderBy Request
    → (String → String → Bool)
    → Server
    → HookCall
    → Bool
    → (String → String)
    → Db
    → Answer (List Request)
unfolding handle_export
handle_export_json lib order like server hook_call fails get db =
    handle_export lib order like server hook_call fails (λ r. r) get db
