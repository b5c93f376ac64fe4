-- ===== src/Api/Replay.antt =====
-- internal/api/requests_advanced.go: the replay of a captured request.
pub mod Clean
use Prim.Native.String as NativeString
use hookwatch.Api.Answer.{HookCall, Refusal, Server}
use hookwatch.Api.RequestHandlers.{EnterCall, enter, get_entered, request_content_type}
use hookwatch.Authz.{edit}
use hookwatch.Header.{Header, get, set}
use hookwatch.Models.{Request}
use hookwatch.Prelude.{
  Bool, List, Option, Result, String, [], any, err, if◌then◌else◌, nat_eq, none, not, ok, or_else,
  some, string_eq, to_lower, trim_space, true, ◌&&◌, ◌++◌, ◌==◌, ◌||◌, ◌∷◌,
}
use hookwatch.Store.Db.{Db}
use hookwatch.Worker.Codec.{Codec}

-- The parts of a URL that the code reads; the rest of it is kept by `with_query`.
pub record ParsedUrl : Type 0 where
  pub scheme : String
  pub host : String
  pub raw_query : String
  pub with_query : String → String

-- The value of a stored header: a text, several texts, or another JSON value.
pub data ReplayValue : Type 0 where
  one_text : String → ReplayValue
  many_texts : List String → ReplayValue
  no_text : ReplayValue

-- What is outside: url.Parse, the entries that decodeJSONMap gives, the canonical form of a header's
-- name, and the client: NewRequest and Do, `none` for an error.
pub record ReplayLibs : Type 0 where
  pub codec : Codec
  pub parse_url : String → Option ParsedUrl
  pub stored_headers : String → List (String × ReplayValue)
  pub valid_request : String → String → Bool

-- http.Header.Add
unfoldable pub add : String → String → Header → Header
add key value [] = (key, value ∷ []) ∷ []
add key value ((k, vs) ∷ h) =
    let rest = add key value h in if k == key then (k, vs ++ value ∷ []) ∷ h else (k, vs) ∷ rest

-- isReplayBlockedHeader
unfoldable pub is_replay_blocked_header : String → Bool
is_replay_blocked_header key =
    any (λ name. name == to_lower (trim_space key))
      ("connection" ∷ "content-length" ∷ "host" ∷ "keep-alive" ∷ "proxy-authenticate"
        ∷ "proxy-authorization" ∷ "te" ∷ "trailer" ∷ "transfer-encoding" ∷ "upgrade" ∷ [])

abbrev joined_query : String → String → String
joined_query own original =
    if trim_space own == ""
    then original
    else NativeString.◌++◌ own (NativeString.◌++◌ "&" original)

unfoldable pub replay_url_parsed : Option ParsedUrl → String → Result String String
replay_url_parsed none original = err "url must be an absolute http or https URL"
replay_url_parsed (some u) original =
    if u.scheme == "" || u.host == ""
    then err "url must be an absolute http or https URL"
    else if not (u.scheme == "http") && not (u.scheme == "https")
    then err "url must use http or https"
    else if not (trim_space original == "")
    then ok (u.with_query (joined_query u.raw_query original))
    else ok (u.with_query u.raw_query)

unfoldable pub build_replay_url : ReplayLibs → String → String → Result String String
unfolding replay_url_parsed
build_replay_url lib raw original =
    if trim_space raw == ""
    then err "url is required"
    else replay_url_parsed (lib.parse_url (trim_space raw)) original

unfoldable pub add_all : String → List String → Header → Header
unfolding add
add_all key [] h = h
add_all key (v ∷ vs) h = add_all key vs (add key v h)

unfoldable pub copy_header : ReplayLibs → String → ReplayValue → Header → Header
unfolding add_all set
copy_header lib key (one_text s) h = set (lib.codec.canonical key) s h
copy_header lib key (many_texts ss) h = add_all (lib.codec.canonical key) ss h
copy_header lib key no_text h = h

unfoldable pub copy_headers : ReplayLibs → List (String × ReplayValue) → Header → Header
unfolding copy_header is_replay_blocked_header
copy_headers lib [] h = h
copy_headers lib ((key, value) ∷ rest) h =
    copy_headers lib rest (if is_replay_blocked_header key then h else copy_header lib key value h)

-- The type of the body, where the headers that were copied have none.
unfoldable pub with_replay_type : String → Header → Header
unfolding get set
with_replay_type content_type h =
    if get "Content-Type" h == "" && not (content_type == "")
    then set "Content-Type" content_type h
    else h

unfoldable pub apply_replay_headers : ReplayLibs → String → Header → Header
unfolding copy_headers with_replay_type
apply_replay_headers lib raw h =
    with_replay_type (request_content_type lib.codec raw)
      (copy_headers lib (lib.stored_headers raw) h)

-- replayRequestPayload
pub record ReplayPayload : Type 0 where
  pub url : String
  pub preserve_headers : Option Bool
  pub additional_headers : List (String × String)

-- The headers that the client adds; a blank name is skipped.
unfoldable pub add_additional : ReplayLibs → List (String × String) → Header → Header
unfolding set
add_additional lib [] h = h
add_additional lib ((key, value) ∷ rest) h =
    add_additional lib rest
      (if trim_space key == "" then h else set (lib.codec.canonical key) value h)

-- The headers of the request that is sent.
unfoldable pub replay_header : ReplayLibs → ReplayPayload → Request → Header
unfolding apply_replay_headers add_additional with_replay_type
replay_header lib payload req = with_replay_type (request_content_type lib.codec req.headers) (
    add_additional lib payload.additional_headers (
      if or_else payload.preserve_headers true
      then apply_replay_headers lib req.headers []
      else []))

-- The request that is sent.
pub record Replayed : Type 0 where
  pub method : String
  pub url : String
  pub header : Header
  pub body : String

unfoldable pub replay_to :
    ReplayLibs → ReplayPayload → Request → Result String String → Result Refusal Replayed
unfolding replay_header
replay_to lib payload req (err message) = err (400, message)
replay_to lib payload req (ok target) =
    if lib.valid_request req.method target
    then ok record {
      method = req.method;
      url = target;
      header = replay_header lib payload req;
      body = req.content;
    }
    else err (400, "invalid replay request")

unfoldable pub replay_found :
    ReplayLibs → Option ReplayPayload → Result Refusal Request → Result Refusal Replayed
unfolding replay_to build_replay_url
replay_found lib payload (err r) = err r
replay_found lib none (ok req) = err (400, "invalid JSON body")
replay_found lib (some payload) (ok req) =
    replay_to lib payload req (build_replay_url lib payload.url req.query)

-- replayRequest up to the call of the client: the refusal, or the request that is sent.
unfoldable pub prepare_replay :
    ReplayLibs
    → Server
    → HookCall
    → EnterCall
    → String
    → Option ReplayPayload
    → Db
    → Result Refusal Replayed × Db
unfolding replay_found
prepare_replay lib server hook_call call request_id payload db =
    let found =
      get_entered call hook_call.token_id request_id (enter server hook_call call edit db) in
    (replay_found lib payload found.0, found.1)
