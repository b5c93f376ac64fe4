-- ===== src/Tests/ApiTests.antt =====
-- The capture handler, the secrets and the signatures at a concrete input.
use Prim.Native.String as NativeString
use hookwatch.Api.Capture.{Incoming, Surroundings, capture, capture_record}
use hookwatch.Api.Capture.Access.{capture-authorized}
use hookwatch.Api.Capture.Privacy.{capture-requests, with_spawned}
use hookwatch.Api.Encode.{Libs, encode_form_data, encode_headers}
use hookwatch.Api.Expiry.{has_expired, load_active_token, refresh_token_expiry}
use hookwatch.Api.Secret.{
  Caller, extract_receive_secret, reconcile_receive_secret, rotate_receive_secret,
  sanitized_capture_headers, validate_receive_secret,
}
use hookwatch.Api.Secret.Lifecycle.{
  accepts_after, get-sanitized_capture_headers, is_private, reconcile_receive_secret-accepts,
  rotate_receive_secret-accepts,
}
use hookwatch.Api.Signature.{evaluate_request_signature}
use hookwatch.Api.Signature.Validity.{IsSigned, evaluate_request_signature-IsSigned}
use hookwatch.Header.{get}
use hookwatch.Hub.{Hub}
use hookwatch.Models.{Request, Token}
use hookwatch.Prelude.{
  String, [], cut_prefix, false, if◌then◌else◌, nat_eq, none, not, ok, refl, some, string_eq,
  to_lower, trim_space, true, ◌==◌, ◌∷◌, ◌≡◌, ◌≢◌, ◌⊎◌,
}
use hookwatch.Store.Db.{Db}
use hookwatch.Store.Requests.{create_request}
use hookwatch.Store.Tokens.{get_token, touch_token_expiry}
use hookwatch.Tests.Samples.{hook, one_day, request_of, sample_db}

abbrev sample_libs : Libs
sample_libs = record {
  parse_uuid = λ s. not (s == "");
  hash = λ s. NativeString.◌++◌ "hash of " s;
  hmac = λ s. λ m. NativeString.◌++◌ s m;
  parse_query = λ q. some [];
  encode_query = λ h. "";
  marshal = λ m. some "{}";
  parse_media_type = λ c. none;
  read_form = λ b. λ s. none;
  split_host_port = λ a. some a;
  request_uri = λ u. λ q. u;
  encode_created = λ r. λ n. some "{}";
}

abbrev private_hook : Token
private_hook = record hook {
  receive_mode = "private";
  receive_secret_hash = some "hash of key";
  receive_secret_prefix = some "key";
  signature_provider = "GitHub";
  signature_secret = some "ab";
}

abbrev private_db : Db
private_db = record sample_db { tokens = private_hook ∷ [] }

abbrev signed_caller : Caller
signed_caller = record {
  header = ("X-Hook-Secret", "key" ∷ []) ∷ ("X-Hub-Signature-256", "sha256=ABcd" ∷ []) ∷ [];
  query = [];
  basic_password = none;
}

abbrev signed_request : Incoming
signed_request = record {
  token_id = "hook";
  caller = signed_caller;
  raw_query = "";
  body = some "cd";
  host = "example";
  method = "POST";
  user_agent = "curl";
  remote_addr = "10.0.0.1";
  url = "/hook";
  tls = false;
}

abbrev calm : Surroundings
calm = record {
  load_now = 60_000_000_000;
  touch_now = 60_000_000_000;
  now = 60_000_000_000;
  request_id = "r2";
  event_id = "1";
  get_fails = false;
  touch_fails = false;
  create_fails = false;
  create_query_fails = false;
  count_fails = false;
  client_gone = false;
}

abbrev no_subscribers : Hub
no_subscribers = record { subscribers = []; channels = []; next = 0 }

abbrev stored_request : Request
stored_request = record (request_of "r2") {
  content = "cd";
  size = 2;
  signature_status = "valid";
  signature_provider = some "github";
}

captured_example :
    (capture sample_libs one_day calm signed_request private_db no_subscribers).spawned
    ≡ some stored_request
unfolding capture load_active_token get_token validate_receive_secret extract_receive_secret
    trim_space get refresh_token_expiry touch_token_expiry encode_headers encode_form_data
    create_request capture_record evaluate_request_signature to_lower cut_prefix
captured_example = refl

capture-requests_example :
    (capture sample_libs one_day calm signed_request private_db no_subscribers).db.requests
    ≡ with_spawned
        (capture sample_libs one_day calm signed_request private_db no_subscribers).spawned
        private_db.requests
capture-requests_example =
    capture-requests sample_libs one_day calm signed_request private_db no_subscribers

capture-authorized_example :
    (h : Token) × (get_token false one_day "hook" private_db ≡ ok h)
    × (has_expired 60_000_000_000 h ≡ false)
    × ((h.receive_mode ≢ "private")
        ⊎ (((extract_receive_secret signed_caller).0 ≢ "")
            × (h.receive_secret_hash
                ≡ some (sample_libs.hash (extract_receive_secret signed_caller).0))))
capture-authorized_example =
    capture-authorized sample_libs one_day calm signed_request private_db no_subscribers
      stored_request captured_example

evaluate_request_signature-IsSigned_example :
    (secret : String) × (private_hook.signature_secret ≡ some secret)
    × (trim_space secret ≢ "")
    × IsSigned sample_libs.hmac
        (to_lower (trim_space private_hook.signature_provider))
        signed_caller.header
        "cd"
        secret
unfolding evaluate_request_signature to_lower trim_space get cut_prefix
evaluate_request_signature-IsSigned_example =
    evaluate_request_signature-IsSigned sample_libs.hmac private_hook signed_caller.header "cd" refl

reconcile_receive_secret-accepts_example :
    (let result = reconcile_receive_secret sample_libs.hash (some "new key") private_hook true in
      validate_receive_secret sample_libs.hash result.1 "key" ≡ (
        if is_private private_hook
        then accepts_after sample_libs.hash private_hook result.0 "key"
        else false))
reconcile_receive_secret-accepts_example =
    reconcile_receive_secret-accepts sample_libs.hash (some "new key") private_hook true "key"

rotate_receive_secret-accepts_example :
    validate_receive_secret sample_libs.hash
      (rotate_receive_secret sample_libs.hash (some "new key") private_hook).1
      "key"
    ≡ false
rotate_receive_secret-accepts_example =
    rotate_receive_secret-accepts sample_libs.hash "new key" private_hook "key"

-- The secret is the password, so Authorization is not stored.
abbrev password_caller : Caller
password_caller = record {
  header = ("Authorization", "Basic OmtleQ==" ∷ []) ∷ ("X-Id", "1" ∷ []) ∷ [];
  query = [];
  basic_password = some "key";
}

get-sanitized_capture_headers_example :
    get "Authorization" (
      sanitized_capture_headers password_caller.header
        (extract_receive_secret password_caller).1
        true)
    ≡ ""
unfolding trim_space get
get-sanitized_capture_headers_example =
    get-sanitized_capture_headers password_caller "Authorization"
