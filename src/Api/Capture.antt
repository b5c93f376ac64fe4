-- ===== src/Api/Capture.antt =====
-- internal/api/capture.go: the handler that captures a request to a hook.
pub mod Privacy
pub mod Access
use Prim.Native.String as NativeString
use hookwatch.Api.Encode.{Libs, encode_form_data, encode_headers}
use hookwatch.Api.Expiry.{LoadError, load_active_token, refresh_token_expiry, stored, token_expired}
use hookwatch.Api.RateLimit.{caller}
use hookwatch.Api.Secret.{
  Caller, extract_receive_secret, receive_mode_private, sanitized_capture_headers,
  sanitized_capture_query, validate_receive_secret,
}
use hookwatch.Api.Signature.{evaluate_request_signature}
use hookwatch.Header.{Header, get, set}
use hookwatch.Hub.{Hub, publish}
use hookwatch.Models.{Request, Time, Token}
use hookwatch.Prelude.{
  Bool, Option, Result, String, [], err, false, if◌then◌else◌, ltb_ℤ, nat_eq, none, not, ok,
  or_else, pos, some, string_eq, ℕ, ℤ, ◌&&◌, ◌++◌, ◌==◌, ◌||◌,
}
use hookwatch.Store.Config.{Config}
use hookwatch.Store.Db.{Db, StoreError, not_found, quota_exceeded}
use hookwatch.Store.Requests.{count_requests_by_token, create_request}

-- The request, `body` being `none` where it cannot be read.
pub record Incoming : Type 0 where
  pub token_id : String
  pub caller : Caller
  pub raw_query : String
  pub body : Option String
  pub host : String
  pub method : String
  pub user_agent : String
  pub remote_addr : String
  pub url : String
  pub tls : Bool

-- What happens outside: the clocks, the fresh identifiers, the failures of the store's calls, and
-- whether the client is gone before the delay of the answer is over.
pub record Surroundings : Type 0 where
  pub load_now : Time
  pub touch_now : Time
  pub now : Time
  pub request_id : String
  pub event_id : String
  pub get_fails : Bool
  pub touch_fails : Bool
  pub create_fails : Bool
  pub create_query_fails : Bool
  pub count_fails : Bool
  pub client_gone : Bool

-- http.Error and http.NotFound, writeError, the answer that the hook is configured for, or none.
pub data CaptureResponse : Type 0 where
  plain_error : ℕ → String → CaptureResponse
  json_error : ℕ → String → CaptureResponse
  hook_response : ℤ → Header → String → CaptureResponse
  abandoned : CaptureResponse

-- The answer, the tables and the hub as they are left, and the request that ExecuteActions runs on.
pub record Captured : Type 0 where
  pub response : CaptureResponse
  pub db : Db
  pub hub : Hub
  pub spawned : Option Request

abbrev ends : CaptureResponse → Db → Hub → Captured
ends response db hub = record { response = response; db = db; hub = hub; spawned = none }

unfoldable pub remote_ip : Libs → String → String
remote_ip lib remote_addr = or_else (lib.split_host_port remote_addr) remote_addr

unfoldable pub absolute_url : Libs → Incoming → String → String
absolute_url lib r query =
    NativeString.◌++◌ (if r.tls then "https" else "http")
      (NativeString.◌++◌ "://" (NativeString.◌++◌ r.host (lib.request_uri r.url query)))

unfoldable pub apply_capture_cors_headers : Bool → Header → Header
unfolding set
apply_capture_cors_headers cors h =
    if cors
    then set "Access-Control-Expose-Headers" "Content-Length,Content-Range,X-Request-Id,X-Token-Id"
        (set "Access-Control-Allow-Headers"
          "DNT,User-Agent,X-Requested-With,If-Modified-Since,Cache-Control,Content-Type,Range"
          (set "Access-Control-Allow-Methods" "GET, PUT, PATCH, POST, OPTIONS"
            (set "Access-Control-Allow-Origin" "*" h)))
    else h

unfoldable pub configured_response : Surroundings → Token → String → CaptureResponse
unfolding apply_capture_cors_headers
configured_response env hook token_id =
    if ltb_ℤ (pos 0) hook.timeout && env.client_gone
    then abandoned
    else hook_response hook.default_status
        (set "Content-Type" hook.default_content_type (
          set "X-Token-Id" token_id
            (set "X-Request-Id" env.request_id (apply_capture_cors_headers hook.cors []))))
        hook.default_content

-- publishRequestCreated, where the count succeeded and the payload can be encoded.
unfoldable pub publish_payload : String → String → Option String → Hub → Hub
publish_payload token_id event_id none hub = hub
publish_payload token_id event_id (some payload) hub =
    publish token_id (record { id = event_id; type = "request.created"; payload = payload }) hub

unfoldable pub publish_request_created :
    Libs → Surroundings → Request → Result StoreError ℕ → Hub → Hub
unfolding publish_payload
publish_request_created lib env req (err e) hub = hub
publish_request_created lib env req (ok total) hub =
    publish_payload req.token_id env.event_id (lib.encode_created req total) hub

unfoldable pub answer_stored :
    Libs → Surroundings → Token → Request → Result StoreError (Unit {0}) × Db → Hub → Captured
unfolding publish_request_created configured_response
answer_stored lib env hook req (err quota_exceeded, db) hub =
    ends (json_error 410 "request quota exceeded") db hub
answer_stored lib env hook req (err e, db) hub =
    ends (plain_error 500 "failed to store captured request") db hub
answer_stored lib env hook req (ok u, db) hub = record {
  response = configured_response env hook req.token_id;
  db = db;
  hub =
      publish_request_created lib env req (count_requests_by_token env.count_fails req.token_id db)
        hub;
  spawned = some req;
}

-- The stored request, from the encoded headers and form.
unfoldable pub capture_record :
    Libs → Surroundings → Incoming → Token → String → String → String → Request
unfolding sanitized_capture_query absolute_url remote_ip
capture_record lib env r hook body headers form =
    let query =
      sanitized_capture_query lib.parse_query lib.encode_query r.raw_query
        (hook.receive_mode == receive_mode_private) in
    let signature = evaluate_request_signature lib.hmac hook r.caller.header body in
    record {
      uuid = env.request_id;
      token_id = r.token_id;
      ip = remote_ip lib r.remote_addr;
      hostname = r.host;
      method = r.method;
      user_agent = r.user_agent;
      content = body;
      query = query;
      headers = headers;
      form_data = form;
      url = absolute_url lib r query;
      size = NativeString.len body;
      signature_status = signature.status;
      signature_provider = signature.provider;
      signature_error = signature.error;
      created_at = env.now;
    }

unfoldable pub store_encoded :
    Libs
    → Surroundings
    → Incoming
    → Token
    → String
    → Option String
    → Option String
    → Db
    → Hub
    → Captured
unfolding answer_stored
store_encoded lib env r hook body none form db hub =
    ends (plain_error 500 "failed to encode request headers") db hub
store_encoded lib env r hook body (some headers) none db hub =
    ends (plain_error 400 "failed to parse form data") db hub
store_encoded lib env r hook body (some headers) (some form) db hub =
    let req = capture_record lib env r hook body headers form in
    answer_stored lib env hook req (create_request env.create_fails env.create_query_fails req db)
      hub

unfoldable pub capture_body :
    Libs → Surroundings → Incoming → Option String → Result StoreError Token × Db → Hub → Captured
unfolding store_encoded
capture_body lib env r body (err e, db) hub =
    ends (plain_error 500 "failed to refresh token expiry") db hub
capture_body lib env r none (ok hook, db) hub =
    ends (plain_error 400 "failed to read request body") db hub
capture_body lib env r (some body) (ok hook, db) hub =
    store_encoded lib env r hook body
      (encode_headers lib (
        sanitized_capture_headers r.caller.header (extract_receive_secret r.caller).1
          (hook.receive_mode == receive_mode_private)))
      (encode_form_data lib (get "Content-Type" r.caller.header) body) db hub

unfoldable pub authorized : Libs → Incoming → Token → Bool
authorized lib r hook =
    not (hook.receive_mode == receive_mode_private)
    || validate_receive_secret lib.hash hook (extract_receive_secret r.caller).0

unfoldable pub capture_loaded :
    Libs → Config → Surroundings → Incoming → Result LoadError Token × Db → Hub → Captured
unfolding capture_body authorized
capture_loaded lib cfg env r (err token_expired, db) hub =
    ends (json_error 410 "token expired") db hub
capture_loaded lib cfg env r (err (stored not_found), db) hub =
    ends (plain_error 404 "404 page not found") db hub
capture_loaded lib cfg env r (err (stored e), db) hub =
    ends (plain_error 500 "failed to load token") db hub
capture_loaded lib cfg env r (ok hook, db) hub =
    if authorized lib r hook
    then capture_body lib env r r.body
        (refresh_token_expiry env.touch_fails cfg env.touch_now hook db) hub
    else ends (json_error 401 "private hook requires a secret") db hub

unfoldable pub capture : Libs → Config → Surroundings → Incoming → Db → Hub → Captured
unfolding capture_loaded
capture lib cfg env r db hub =
    if not (lib.parse_uuid r.token_id)
    then ends (plain_error 404 "404 page not found") db hub
    else capture_loaded lib cfg env r
        (load_active_token env.get_fails env.touch_fails cfg env.load_now r.token_id false db) hub
