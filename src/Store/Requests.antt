-- ===== src/Store/Requests.antt =====
-- internal/store/store.go: the operations on the table of captured requests.
pub mod Quota
use hookwatch.Models.{Request, Token}
use hookwatch.Prelude.{
  Bool, List, Result, String, [], any, arith, count, err, find, if◌then◌else◌, leb_ℤ, ltb_ℤ, nat_eq,
  ok, pos, string_eq, trim_space, ℕ, ◌&&◌, ◌++◌, ◌==◌, ◌||◌, ◌∷◌, ◌≡◌,
}
use hookwatch.Store.Db.{
  Db, StoreError, Write, delete_requests_where, driver, format_time, not_found, or_not_found,
  quota_exceeded, request_exists, token_exists, unique_violation,
}

unfoldable pub request_row : Request → Request
unfolding format_time
request_row req = record req { created_at = format_time req.created_at }

-- SELECT COUNT(*) FROM requests WHERE token_id = id
unfoldable pub count_requests : String → List Request → ℕ
count_requests id = count (λ r. r.token_id == id)

-- max_requests <= 0 OR (SELECT COUNT(*) …) < max_requests
unfoldable pub has_room : Db → Token → Bool
unfolding count_requests
has_room db token =
    leb_ℤ token.max_requests (pos 0)
    || ltb_ℤ (pos (count_requests token.uuid db.requests)) token.max_requests

unfoldable pub with_status : Request → Request
with_status req =
    if trim_space req.signature_status == ""
    then record req { signature_status = "unknown" }
    else req

-- The insertion is refused without an error of SQLite if no token with this id has room; a second
-- query then tells a missing token from a full one. `query_fails` is a failure of that query.
unfoldable pub create_request : Bool → Bool → Request → Write (Unit {0})
unfolding has_room request_row with_status
create_request fails query_fails req db =
    if fails
    then (err driver, db)
    else if any (λ t. t.uuid == req.token_id && has_room db t) db.tokens
    then if request_exists req.uuid db
      then (err unique_violation, db)
      else (ok tt, record db { requests = db.requests ++ request_row (with_status req) ∷ [] })
    else if query_fails
    then (err driver, db)
    else if token_exists req.token_id db
    then (err quota_exceeded, db)
    else (err not_found, db)

unfoldable pub get_request : Bool → String → String → Db → Result StoreError Request
get_request fails token_id request_id db =
    if fails
    then err driver
    else or_not_found (find (λ r. r.token_id == token_id && r.uuid == request_id) db.requests)

unfoldable pub count_requests_by_token : Bool → String → Db → Result StoreError ℕ
unfolding count_requests
count_requests_by_token fails token_id db =
    if fails
    then err driver
    else if token_exists token_id db
    then ok (count_requests token_id db.requests)
    else err not_found

unfoldable pub delete_request : Bool → String → String → Write (Unit {0})
unfolding delete_requests_where
delete_request fails token_id request_id db =
    if fails
    then (err driver, db)
    else if any (λ r. r.token_id == token_id && r.uuid == request_id) db.requests
    then (ok tt, delete_requests_where (λ r. r.token_id == token_id && r.uuid == request_id) db)
    else (err not_found, db)

unfoldable pub delete_all_requests_by_token : Bool → String → Write (Unit {0})
unfolding delete_requests_where
delete_all_requests_by_token fails token_id db =
    if fails
    then (err driver, db)
    else if token_exists token_id db
    then (ok tt, delete_requests_where (λ r. r.token_id == token_id) db)
    else (err not_found, db)

pub request_row-token : (req : Request) → (request_row (with_status req)).token_id ≡ req.token_id
unfolding request_row with_status
request_row-token req = ground arith
