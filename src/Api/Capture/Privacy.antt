-- ===== src/Api/Capture/Privacy.antt =====
-- internal/api/capture.go: what a capture needs and what it leaves in the table of requests.
use hookwatch.Api.Capture.{
  Incoming, Surroundings, answer_stored, authorized, capture, capture_body, capture_loaded,
  capture_record, store_encoded,
}
use hookwatch.Api.Encode.{Libs, encode_form_data, encode_headers}
use hookwatch.Api.Expiry.{
  LoadError, checked, has_expired, load_active_token, loaded, refresh_token_expiry, refreshed,
  stored, token_expired,
}
use hookwatch.Api.Secret.{extract_receive_secret, receive_mode_private, sanitized_capture_headers}
use hookwatch.Header.{get}
use hookwatch.Hub.{Hub}
use hookwatch.Models.{Request, Time, Token}
use hookwatch.Prelude.{
  Bool, Bool-cases, List, Option, Result, String, [], ap, arith, err, false, if◌then◌else◌, inl,
  inr, is_ok, nat_eq, none, ok, refl, some, string_eq, true, ◌++◌, ◌==◌, ◌∙◌, ◌∷◌, ◌≡◌,
}
use hookwatch.Store.Config.{Config}
use hookwatch.Store.Db.{
  Db, StoreError, driver, foreign_key_violation, missing_action, not_found, quota_exceeded,
  token_exists, unique_violation,
}
use hookwatch.Store.Requests.{create_request, request_row, with_status}
use hookwatch.Store.Tokens.{get_token, touch_token_expiry}

-- The table of requests with the one that the pipeline runs on, if there is one.
unfoldable pub with_spawned : Option Request → List Request → List Request
with_spawned none rs = rs
with_spawned (some req) rs = rs ++ request_row (with_status req) ∷ []

created-requests :
    (fails query_fails : Bool) (req : Request) (db : Db)
    → (create_request fails query_fails req db).1.requests ≡ (
        if is_ok (create_request fails query_fails req db).0
        then db.requests ++ request_row (with_status req) ∷ []
        else db.requests)
unfolding create_request
created-requests fails query_fails req db = ground arith

answered-requests :
    (libs : Libs) (env : Surroundings) (hook : Token) (req : Request) (rs : List Request)
    → (out : Result StoreError (Unit {0}) × Db) (hub : Hub)
    → out.1.requests ≡ (if is_ok out.0 then rs ++ request_row (with_status req) ∷ [] else rs)
    → (answer_stored libs env hook req out hub).db.requests
      ≡ with_spawned (answer_stored libs env hook req out hub).spawned rs
unfolding answer_stored with_spawned
answered-requests libs env hook req rs (ok u, db) hub h = h
answered-requests libs env hook req rs (err not_found, db) hub h = h
answered-requests libs env hook req rs (err quota_exceeded, db) hub h = h
answered-requests libs env hook req rs (err unique_violation, db) hub h = h
answered-requests libs env hook req rs (err foreign_key_violation, db) hub h = h
answered-requests libs env hook req rs (err missing_action, db) hub h = h
answered-requests libs env hook req rs (err driver, db) hub h = h

encoded-requests :
    (libs : Libs) (env : Surroundings) (r : Incoming) (hook : Token) (body : String)
    → (headers form : Option String) (db : Db) (hub : Hub)
    → (store_encoded libs env r hook body headers form db hub).db.requests
      ≡ with_spawned (store_encoded libs env r hook body headers form db hub).spawned db.requests
unfolding store_encoded with_spawned
encoded-requests libs env r hook body none form db hub = refl
encoded-requests libs env r hook body (some headers) none db hub = refl
encoded-requests libs env r hook body (some headers) (some form) db hub =
    let req = capture_record libs env r hook body headers form in
    answered-requests libs env hook req db.requests
      (create_request env.create_fails env.create_query_fails req db) hub
      (created-requests env.create_fails env.create_query_fails req db)

body-requests :
    (libs : Libs) (env : Surroundings) (r : Incoming) (body : Option String)
    → (out : Result StoreError Token × Db) (hub : Hub)
    → (capture_body libs env r body out hub).db.requests
      ≡ with_spawned (capture_body libs env r body out hub).spawned out.1.requests
unfolding capture_body with_spawned
body-requests libs env r body (err e, db) hub = refl
body-requests libs env r none (ok hook, db) hub = refl
body-requests libs env r (some body) (ok hook, db) hub =
    encoded-requests libs env r hook body
      (encode_headers libs (
        sanitized_capture_headers r.caller.header (extract_receive_secret r.caller).1
          (hook.receive_mode == receive_mode_private)))
      (encode_form_data libs (get "Content-Type" r.caller.header) body) db hub

refreshed-requests :
    (hook : Token) (out : Result StoreError Time × Db) → (refreshed hook out).1 ≡ out.1
unfolding refreshed
refreshed-requests hook (ok t, db) = refl
refreshed-requests hook (err e, db) = refl

touch_token_expiry-requests :
    (fails : Bool) (cfg : Config) (id : String) (now : Time) (db : Db)
    → (touch_token_expiry fails cfg id now db).1.requests ≡ db.requests
unfolding touch_token_expiry
touch_token_expiry-requests true cfg id now db = refl
touch_token_expiry-requests false cfg id now db = elim (Bool-cases (token_exists id db)) [
  | inl e ↦ rw e refl
  | inr e ↦ rw e refl
]

refresh_token_expiry-requests :
    (fails : Bool) (cfg : Config) (now : Time) (hook : Token) (db : Db)
    → (refresh_token_expiry fails cfg now hook db).1.requests ≡ db.requests
unfolding refresh_token_expiry touch_token_expiry
refresh_token_expiry-requests fails cfg now hook db = elim (Bool-cases hook.persistent) [
  | inl p ↦ rw p refl
  | inr p ↦ rw (p, refreshed-requests) (touch_token_expiry-requests fails cfg hook.uuid now db)
]

untouched :
    (touch_fails : Bool) (cfg : Config) (now : Time) (id : String) (t : Result StoreError Token)
    → (db : Db) → (loaded touch_fails cfg now id false t db).1 ≡ db
unfolding loaded checked
untouched touch_fails cfg now id (err e) db = refl
untouched touch_fails cfg now id (ok hook) db = elim (Bool-cases (has_expired now hook)) [
  | inl e ↦ rw e refl
  | inr e ↦ rw e refl
]

load_active_token-db :
    (fails touch_fails : Bool) (cfg : Config) (now : Time) (id : String) (db : Db)
    → (load_active_token fails touch_fails cfg now id false db).1 ≡ db
unfolding load_active_token
load_active_token-db fails touch_fails cfg now id db =
    untouched touch_fails cfg now id (get_token fails cfg id db) db

loaded-requests :
    (libs : Libs) (cfg : Config) (env : Surroundings) (r : Incoming)
    → (out : Result LoadError Token × Db) (hub : Hub)
    → (capture_loaded libs cfg env r out hub).db.requests
      ≡ with_spawned (capture_loaded libs cfg env r out hub).spawned out.1.requests
unfolding capture_loaded with_spawned
loaded-requests libs cfg env r (err token_expired, db) hub = refl
loaded-requests libs cfg env r (err (stored not_found), db) hub = refl
loaded-requests libs cfg env r (err (stored quota_exceeded), db) hub = refl
loaded-requests libs cfg env r (err (stored unique_violation), db) hub = refl
loaded-requests libs cfg env r (err (stored foreign_key_violation), db) hub = refl
loaded-requests libs cfg env r (err (stored missing_action), db) hub = refl
loaded-requests libs cfg env r (err (stored driver), db) hub = refl
loaded-requests libs cfg env r (ok hook, db) hub = elim (Bool-cases (authorized libs r hook)) [
  | inl a ↦ rw a (
      body-requests libs env r r.body
        (refresh_token_expiry env.touch_fails cfg env.touch_now hook db) hub
      ∙ ap
          (λ rs.
            with_spawned
              (capture_body libs env r r.body
                (refresh_token_expiry env.touch_fails cfg env.touch_now hook db) hub).spawned
              rs)
          (refresh_token_expiry-requests env.touch_fails cfg env.touch_now hook db))
  | inr a ↦ rw a refl
]

-- Whatever the request is and whatever fails: the handler stores one request, the last row, if and
-- only if it starts the pipeline, which then runs on that request; else the table stays as it is.
pub capture-requests :
    (libs : Libs) (cfg : Config) (env : Surroundings) (r : Incoming) (db : Db) (hub : Hub)
    → (capture libs cfg env r db hub).db.requests
      ≡ with_spawned (capture libs cfg env r db hub).spawned db.requests
unfolding capture with_spawned
capture-requests libs cfg env r db hub = elim (Bool-cases (libs.parse_uuid r.token_id)) [
  | inl e ↦ rw e (
      loaded-requests libs cfg env r
        (load_active_token env.get_fails env.touch_fails cfg env.load_now r.token_id false db) hub
      ∙ ap
          (λ d.
            with_spawned
              (capture_loaded libs cfg env r
                (load_active_token env.get_fails env.touch_fails cfg env.load_now r.token_id false
                  db)
                hub).spawned
              d.requests)
          (load_active_token-db env.get_fails env.touch_fails cfg env.load_now r.token_id db))
  | inr e ↦ rw e refl
]
