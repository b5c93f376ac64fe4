-- ===== src/Store/Listing.antt =====
-- internal/store/store.go: the pages of ListTokens, and the parameters of the lists.
pub mod Pages
use hookwatch.Models.{Time, Token}
use hookwatch.Prelude.{
  Bool, List, Result, String, drop, err, if◌then◌else◌, leb_ℤ, length, ltb, ltb_ℤ, map, nat_eq, ok,
  pos, pos_part, select, string_eq, take, to_lower, ℕ, ℤ, ◌-ℤ◌, ◌==◌, ◌||◌,
}
use hookwatch.Store.Config.{Config}
use hookwatch.Store.Db.{Db, StoreError, driver, format_time}
use hookwatch.Store.Order.{OrderBy}
use hookwatch.Store.Tokens.{scan_token}

pub record ListParams : Type 0 where
  pub limit : ℤ
  pub offset : ℤ
  pub sort_by : String
  pub order : String

-- defaultPageSize and maxPageSize
unfoldable pub normalize_limit : ℤ → ℕ
normalize_limit limit =
    if leb_ℤ limit (pos 0) then 50 else if ltb_ℤ (pos 100) limit then 100 else pos_part limit

unfoldable pub normalize_offset : ℤ → ℕ
normalize_offset offset = pos_part offset

-- A descending order is the ascending one of the opposite keys.
unfoldable pub sort_direction : String → ℤ → ℤ
sort_direction order key = if to_lower order == "asc" then key else pos 0 -ℤ key

unfoldable pub token_sort_column : String → Token → Time
token_sort_column sort_by token =
    if to_lower sort_by == "updated_at" then token.updated_at else token.created_at

pub record TokenPage : Type 0 where
  pub tokens : List Token
  pub total : ℕ
  pub limit : ℕ
  pub offset : ℕ

-- persistent = 1 OR expires_at > now: a NULL is not greater.
unfoldable pub is_active_row : Time → Token → Bool
unfolding format_time
is_active_row now row = row.persistent || ltb (format_time now) row.expires_at

-- An empty order means "desc", as every text but "asc" does, and an empty column "created_at".
unfoldable pub token_page : OrderBy Token → Config → Time → ListParams → List Token → TokenPage
unfolding normalize_limit normalize_offset sort_direction token_sort_column is_active_row
token_page order cfg now params tokens =
    let key =
      λ (t : Token). sort_direction params.order (pos (token_sort_column params.sort_by t)) in
    let rows = select (is_active_row now) tokens in
    record {
      tokens = map (scan_token cfg) (
          take (normalize_limit params.limit)
            (drop (normalize_offset params.offset) (order.sort key rows)));
      total = length rows;
      limit = normalize_limit params.limit;
      offset = normalize_offset params.offset;
    }

-- `fails` and `query_fails` are failures of the count and of the query for the rows.
unfoldable pub list_tokens :
    OrderBy Token → Bool → Bool → Config → Time → ListParams → Db → Result StoreError TokenPage
unfolding token_page
list_tokens order fails query_fails cfg now params db =
    if fails || query_fails then err driver else ok (token_page order cfg now params db.tokens)
