-- ===== src/Store/RequestLists.antt =====
-- internal/store/store.go: ListRequestsByToken and StreamRequestsByToken. `like` is SQLite's LIKE
-- of a text with a pattern, an operator outside the repository.
use Prim.Native.String as NativeString
use hookwatch.Models.{Request, Time}
use hookwatch.Prelude.{
  Bool, List, Result, String, drop, err, if◌then◌else◌, leb, length, nat_eq, not, ok, pos, select,
  string_eq, take, to_upper, ℕ, ℤ, ◌&&◌, ◌==◌, ◌||◌,
}
use hookwatch.Store.Db.{Db, StoreError, driver, format_time, not_found, token_exists}
use hookwatch.Store.Listing.{normalize_limit, normalize_offset, sort_direction}
use hookwatch.Store.Order.{OrderBy}

-- RequestListParams; a time that is not set is 0.
pub record RequestListParams : Type 0 where
  pub limit : ℤ
  pub offset : ℤ
  pub sort_by : String
  pub order : String
  pub method : String
  pub ip : String
  pub search : String
  pub since : Time
  pub until : Time

-- A condition that is only set where its parameter is.
abbrev unless_empty : String → Bool → Bool
unless_empty s condition = s == "" || condition

-- The WHERE clause of both queries.
unfoldable pub matches_request :
    (String → String → Bool) → String → RequestListParams → Request → Bool
unfolding format_time
matches_request like token_id params req =
    req.token_id == token_id
    && unless_empty params.method (req.method == to_upper params.method)
    && unless_empty params.ip (req.ip == params.ip)
    && unless_empty params.search
        (like req.content (NativeString.◌++◌ "%" (NativeString.◌++◌ params.search "%")))
    && (params.since == 0 || leb (format_time params.since) req.created_at)
    && (params.until == 0 || leb req.created_at (format_time params.until))

pub record RequestPage : Type 0 where
  pub requests : List Request
  pub total : ℕ
  pub limit : ℕ
  pub offset : ℕ

-- Every column to sort by is "created_at" (requestSortColumn).
unfoldable pub request_page :
    OrderBy Request
    → (String → String → Bool)
    → String
    → RequestListParams
    → List Request
    → RequestPage
unfolding normalize_limit normalize_offset sort_direction matches_request
request_page order like token_id params requests =
    let rows = select (matches_request like token_id params) requests in
    record {
      requests = take (normalize_limit params.limit) (
          drop (normalize_offset params.offset)
            (order.sort (λ r. sort_direction params.order (pos r.created_at)) rows));
      total = length rows;
      limit = normalize_limit params.limit;
      offset = normalize_offset params.offset;
    }

unfoldable pub list_requests_by_token :
    OrderBy Request
    → (String → String → Bool)
    → Bool
    → String
    → RequestListParams
    → Db
    → Result StoreError RequestPage
unfolding request_page
list_requests_by_token order like fails token_id params db =
    if fails
    then err driver
    else if not (token_exists token_id db)
    then err not_found
    else ok (request_page order like token_id params db.requests)

-- The rows that the callback of StreamRequestsByToken is given, newest first.
unfoldable pub stream_requests_by_token :
    OrderBy Request
    → (String → String → Bool)
    → Bool
    → String
    → RequestListParams
    → Db
    → Result StoreError (List Request)
unfolding matches_request sort_direction
stream_requests_by_token order like fails token_id params db =
    if fails
    then err driver
    else if not (token_exists token_id db)
    then err not_found
    else ok (
        order.sort (λ r. sort_direction "desc" (pos r.created_at))
          (select (matches_request like token_id params) db.requests))
