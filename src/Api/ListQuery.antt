-- ===== src/Api/ListQuery.antt =====
-- internal/api/requests.go and tokens.go: the parameters of the lists. A query parameter that is not
-- given is the empty text; `atoi` is strconv.Atoi and `parse_time` time.Parse of RFC 3339, `none` for an
-- error.
use hookwatch.Header.{get}
use hookwatch.Models.{Time}
use hookwatch.Prelude.{
  Option, Result, String, err, if◌then◌else◌, ltb, nat_eq, negsuc, none, not, ok, or_else, pos,
  some, string_eq, trim_space, ℕ, ℤ, ◌*◌, ◌+◌, ◌-◌, ◌/◌, ◌==◌, ◌||◌,
}
use hookwatch.Store.Listing.{ListParams}
use hookwatch.Store.RequestLists.{RequestListParams}
use hookwatch.Worker.Forward.{wrap_int64}

pub record ListLibs : Type 0 where
  pub atoi : String → Option ℤ
  pub parse_time : String → Option Time

-- firstNonEmpty of two
unfoldable pub first_non_empty : String → String → String
first_non_empty a b =
    if not (trim_space a == "") then a else if not (trim_space b == "") then b else ""

-- requestListQuery; Limit is the same as PerPage.
pub record RequestListQuery : Type 0 where
  pub page : ℕ
  pub per_page : ℕ
  pub offset : ℤ
  pub sort_by : String
  pub order : String
  pub method : String
  pub ip : String
  pub search : String
  pub since : Time
  pub until : Time

-- A size of a page that is given: 0 means the default, and 100 is the greatest.
unfoldable pub page_size : String → ℕ → Option ℤ → Result String ℕ
page_size message default none = err message
page_size message default (some (negsuc n)) = err message
page_size message default (some (pos n)) =
    ok (if n == 0 then default else if ltb 100 n then 100 else n)

unfoldable pub per_page_of : ListLibs → String → Result String ℕ
unfolding page_size
per_page_of lib raw = if raw == "" then ok 50 else page_size "invalid per_page" 50 (lib.atoi raw)

unfoldable pub page_number : Option ℤ → Result String ℕ
page_number none = err "invalid page"
page_number (some (negsuc n)) = err "invalid page"
page_number (some (pos n)) = if n == 0 then err "invalid page" else ok n

unfoldable pub page_of : ListLibs → String → Result String ℕ
unfolding page_number
page_of lib raw = if raw == "" then ok 1 else page_number (lib.atoi raw)

-- The offset (page - 1) * perPage is a 64-bit product; an offset that is given decides the page.
unfoldable pub offset_number : ℕ → Option ℤ → Result String (ℕ × ℤ)
offset_number per_page none = err "invalid offset"
offset_number per_page (some (negsuc n)) = err "invalid offset"
offset_number per_page (some (pos n)) = ok (n / per_page + 1, pos n)

unfoldable pub offset_of : ListLibs → String → ℕ → ℕ → Result String (ℕ × ℤ)
unfolding offset_number
offset_of lib raw page per_page =
    if raw == ""
    then ok (page, wrap_int64 ((page - 1) * per_page))
    else offset_number per_page (lib.atoi raw)

unfoldable pub time_of : ListLibs → String → String → Result String Time
time_of lib message raw =
    if raw == "" then ok 0 else elim (lib.parse_time raw) [ none ↦ err message | some t ↦ ok t ]

abbrev pub or_default : String → String → String
or_default s default = if s == "" then default else s

-- The steps of a parser that stops at the first error.
abbrev pub and_with :
    {A : Type 0} {B : Type 0} → Result String A → (A → Result String B) → Result String B
and_with (err e) f = err e
and_with (ok a) f = f a

-- parseRequestListQuery; `get` is r.URL.Query().Get.
unfoldable pub parse_request_list_query :
    ListLibs → (String → String) → Result String RequestListQuery
unfolding per_page_of page_of offset_of time_of first_non_empty
parse_request_list_query lib get =
    and_with (per_page_of lib (trim_space (first_non_empty (get "per_page") (get "limit"))))
      (λ per_page. and_with (page_of lib (trim_space (get "page"))) (λ page.
        and_with (offset_of lib (trim_space (get "offset")) page per_page) (λ place.
          and_with (time_of lib "invalid since: must be RFC3339 format" (trim_space (get "since")))
            (λ since.
              and_with
                (time_of lib "invalid until: must be RFC3339 format" (trim_space (get "until")))
                (λ until. ok record {
                  page = place.0;
                  per_page = per_page;
                  offset = place.1;
                  sort_by =
                      or_default (trim_space (first_non_empty (get "sort") (get "sort_by")))
                        "created_at";
                  order = or_default (trim_space (get "order")) "desc";
                  method = trim_space (get "method");
                  ip = trim_space (get "ip");
                  search = trim_space (get "search");
                  since = since;
                  until = until;
                })))))

-- totalPages
unfoldable pub total_pages : ℕ → ℕ → ℕ
total_pages total per_page =
    if total == 0 || per_page == 0 then 0 else (total + per_page - 1) / per_page

unfoldable pub offset_value : Option ℤ → Result String ℕ
offset_value none = err "invalid offset"
offset_value (some (negsuc n)) = err "invalid offset"
offset_value (some (pos n)) = ok n

-- parseTokenListParams
unfoldable pub parse_token_list_params : ListLibs → (String → String) → Result String ListParams
unfolding page_size offset_value
parse_token_list_params lib get =
    and_with
      (if trim_space (get "limit") == ""
        then ok 20
        else page_size "invalid limit" 20 (lib.atoi (trim_space (get "limit"))))
      (λ limit.
        and_with
          (if trim_space (get "offset") == ""
            then ok 0
            else offset_value (lib.atoi (trim_space (get "offset"))))
          (λ offset. ok record {
            limit = pos limit;
            offset = pos offset;
            sort_by = or_default (trim_space (get "sort_by")) "created_at";
            order = or_default (trim_space (get "order")) "desc";
          }))

-- parseExportFilterParams: a time that does not parse is ignored.
abbrev lenient_time : ListLibs → String → Time
lenient_time lib raw = if raw == "" then 0 else or_else (lib.parse_time raw) 0

unfoldable pub parse_export_filter_params : ListLibs → (String → String) → RequestListParams
parse_export_filter_params lib get = record {
  limit = pos 0;
  offset = pos 0;
  sort_by = "";
  order = "";
  method = get "method";
  ip = get "ip";
  search = get "search";
  since = lenient_time lib (get "since");
  until = lenient_time lib (get "until");
}
