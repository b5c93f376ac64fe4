-- ===== src/Api/Paging/ByNumber.antt =====
-- internal/api/requests.go and internal/store/store.go: the pages that a client asks for by number.
use hookwatch.Api.ListQuery.{
  ListLibs, RequestListQuery, and_with, first_non_empty, offset_of, or_default, page_number,
  page_of, page_size, parse_request_list_query, per_page_of, time_of, total_pages,
}
use hookwatch.Api.Paging.{
  all_rows, normalize_limit-same, page_get, pages_named, pages_of, pages_of-same, pages_of-take,
  positive, rows_for, take-everything, total_pages-enough,
}
use hookwatch.Api.RequestHandlers.{store_params}
use hookwatch.Models.{Request, Time}
use hookwatch.Prelude.{
  Bool, Bool-cases, List, Option, Result, String, ap, arith, drop, err, false, inl, inr, length,
  nat_eq, negsuc, none, ok, pos, refl, select, some, string_eq, subst, suc, sym, take, trim_space,
  ℕ, ℤ, ◌*◌, ◌-◌, ◌<◌, ◌==◌, ◌∙◌, ◌≡◌, ◌≤◌,
}
use hookwatch.Store.Listing.{normalize_offset}
use hookwatch.Store.Listing.Pages.{length-sort}
use hookwatch.Store.Order.{OrderBy}
use hookwatch.Store.RequestLists.{matches_request, request_page}
use hookwatch.Worker.Forward.{wrap_int64}
use hookwatch.Worker.Forward.Timeout.{wrap_int64-small}
use native.Mathlib.Nat.{lt_of_le_of_lt, mul-le-mul_right}

-- The size of a page that was parsed is from 1 to 100.
InBounds : Result String ℕ → Type 0
InBounds (err message) = Unit
InBounds (ok p) = (1 ≤ p) × (p ≤ 100)

page_size-InBounds : (message : String) (n : Option ℤ) → InBounds (page_size message 50 n)
unfolding page_size InBounds
page_size-InBounds message none = tt
page_size-InBounds message (some (negsuc n)) = tt
page_size-InBounds message (some (pos n)) = (ground arith, ground arith)

per_page_of-InBounds : (lib : ListLibs) (raw : String) → InBounds (per_page_of lib raw)
unfolding per_page_of InBounds
per_page_of-InBounds lib raw = elim (Bool-cases (raw == "")) [
  | inl e ↦ rw e (omega arith, omega arith)
  | inr e ↦ rw e (page_size-InBounds "invalid per_page" (lib.atoi raw))
]

per_page_of-bounds :
    (lib : ListLibs) (raw : String) (p : ℕ) → per_page_of lib raw ≡ ok p → (1 ≤ p) × (p ≤ 100)
unfolding InBounds
per_page_of-bounds lib raw p h = subst InBounds h (per_page_of-InBounds lib raw)

-- The pages that are read by their numbers from 1 on, the one with the number k + 1 in a query for which
-- the database sorts by `orders k`.
abbrev pub pages_read :
    ListLibs
    → (String → String)
    → (ℕ → OrderBy Request)
    → (String → String → Bool)
    → String
    → List Request
    → (ℕ → String)
    → ℕ
    → List Request
pages_read lib get orders like id requests show = pages_of (λ k.
    rows_for (orders k) like id requests (parse_request_list_query lib (page_get show get (suc k))))

-- The steps of parseRequestListQuery from the parsed parameters on: the size, the page, the offset by
-- both of them, and the two times.
abbrev steps :
    Result String ℕ
    → Result String ℕ
    → (ℕ → ℕ → Result String (ℕ × ℤ))
    → Result String Time
    → Result String Time
    → (ℕ → ℕ × ℤ → Time → Time → RequestListQuery)
    → Result String RequestListQuery
steps size page place since until make = and_with size (λ p. and_with page (λ n.
    and_with (place n p) (λ o. and_with since (λ s. and_with until (λ u. ok (make p o s u))))))

or_query : RequestListQuery → Result String RequestListQuery → RequestListQuery
or_query d (ok q) = q
or_query d (err e) = d

-- What must have been parsed where the first page was.
parsed :
    (size : Result String ℕ) (first : ℕ → ℕ × ℤ) (since until : Result String Time)
    (make : ℕ → ℕ × ℤ → Time → Time → RequestListQuery) (q : RequestListQuery)
    → steps size (ok 1) (λ n. λ p. ok (first p)) since until make ≡ ok q
    → (p : ℕ) × (s : Time) × (u : Time) × (size ≡ ok p)
      × (since ≡ ok s)
      × (until ≡ ok u)
      × (make p (first p) s u ≡ q)
unfolding or_query
parsed (err e) first since until make q h = ground (arith, h)
parsed (ok p) first (err e) until make q h = ground (arith, h)
parsed (ok p) first (ok s) (err e) make q h = ground (arith, h)
parsed (ok p) first (ok s) (ok u) make q h =
    (p, s, u, refl, refl, refl, ap (or_query (make p (first p) s u)) h)

-- A number of a page that Atoi reads back.
abbrev pub IsShown : ListLibs → (ℕ → String) → ℕ → Type 0
IsShown lib show page =
    ((trim_space (show page) == "") ≡ false) × (lib.atoi (trim_space (show page)) ≡ some (pos page))

pred_suc : (k : ℕ) → suc k - 1 ≡ k
pred_suc k = omega arith

nothing : (p : ℕ) → (1 - 1) * p ≡ 0
nothing p = omega arith

zero_offset : (p : ℕ) → wrap_int64 ((1 - 1) * p) ≡ pos 0
zero_offset p = ap wrap_int64 (nothing p) ∙ wrap_int64-small 0 (omega arith)

page_of-shown :
    (lib : ListLibs) (show : ℕ → String) (k : ℕ)
    → IsShown lib show (suc k)
    → page_of lib (trim_space (show (suc k))) ≡ ok (suc k)
unfolding page_of page_number
page_of-shown lib show k h = rw (h.0, h.1, positive k) refl

module _ (lib : ListLibs) (get : String → String) where
  size_parsed : Result String ℕ
  size_parsed = per_page_of lib (trim_space (first_non_empty (get "per_page") (get "limit")))

  since_parsed : Result String Time
  since_parsed = time_of lib "invalid since: must be RFC3339 format" (trim_space (get "since"))

  until_parsed : Result String Time
  until_parsed = time_of lib "invalid until: must be RFC3339 format" (trim_space (get "until"))

  query_made : ℕ → ℕ × ℤ → Time → Time → RequestListQuery
  query_made p o s u = record {
    page = o.0;
    per_page = p;
    offset = o.1;
    sort_by = or_default (trim_space (first_non_empty (get "sort") (get "sort_by"))) "created_at";
    order = or_default (trim_space (get "order")) "desc";
    method = trim_space (get "method");
    ip = trim_space (get "ip");
    search = trim_space (get "search");
    since = s;
    until = u;
  }

  parsed_steps :
      (show : ℕ → String) (k : ℕ)
      → trim_space (get "offset") ≡ ""
      → IsShown lib show (suc k)
      → parse_request_list_query lib (page_get show get (suc k))
        ≡ steps size_parsed
            (ok (suc k))
            (λ n. λ p. ok (n, wrap_int64 ((n - 1) * p)))
            since_parsed
            until_parsed
            query_made
  unfolding parse_request_list_query offset_of size_parsed since_parsed until_parsed query_made
  parsed_steps show k blank shown = rw (blank, page_of-shown lib show k shown) refl

  module _ (orders : ℕ → OrderBy Request) (like : String → String → Bool) (id : String)
      (requests : List Request) (show : ℕ → String) (blank : trim_space (get "offset") ≡ "") where
    -- The rows of the page `k`, from 0, for a query that was parsed.
    rows_for-page :
        (k p : ℕ) (s u : Time)
        → size_parsed ≡ ok p
        → since_parsed ≡ ok s
        → until_parsed ≡ ok u
        → 1 ≤ p
        → p ≤ 100
        → k * p < 9_223_372_036_854_775_808
        → IsShown lib show (suc k)
        → rows_for
            (orders k)
            like
            id
            requests
            (parse_request_list_query lib (page_get show get (suc k)))
          ≡ take p
              (drop (k * p) (all_rows (orders k) like id (query_made p (1, pos 0) s u) requests))
    unfolding request_page store_params query_made normalize_offset
    rows_for-page k p s u es ess eu low high small shown =
        rw
          (
            parsed_steps show k blank shown,
            es,
            ess,
            eu,
            ap wrap_int64 (ap (λ n. n * p) (pred_suc k)) ∙ wrap_int64-small (k * p) small,
            normalize_limit-same p low high,
          )
          refl

    -- All the pages, by the query that was made for the first one.
    pages_made :
        (p : ℕ) (s u : Time)
        → size_parsed ≡ ok p
        → since_parsed ≡ ok s
        → until_parsed ≡ ok u
        → 1 ≤ p
        → p ≤ 100
        → let q = query_made p (1, pos 0) s u in
          pages_named (orders 0) like id q requests * p < 9_223_372_036_854_775_808
          → ((k : ℕ) → k ≤ pages_named (orders 0) like id q requests → IsShown lib show (suc k))
          → ((k : ℕ)
              → all_rows (orders k) like id q requests ≡ all_rows (orders 0) like id q requests)
          → pages_read lib get orders like id requests show
              (pages_named (orders 0) like id q requests)
            ≡ all_rows (orders 0) like id q requests
    unfolding request_page store_params query_made
    pages_made p s u es ess eu low high small numbers ties =
        let q = query_made p (1, pos 0) s u in
        let rows = select (matches_request like id (store_params q)) requests in
        let sorted = all_rows (orders 0) like id q requests in
        let n = total_pages (length rows) p in
        pages_of-same _ (λ k. take p (drop (k * p) sorted)) n
          (λ k. λ below.
            rows_for-page k p s u es ess eu low high
              (lt_of_le_of_lt (mul-le-mul_right p (omega (arith, below))) small)
              (numbers k (omega (arith, below)))
            ∙ ap (λ l. take p (drop (k * p) l)) (ties k))
        ∙ pages_of-take p sorted n
        ∙ take-everything (n * p) sorted (
            subst (λ l. l ≤ n * p) (sym (length-sort (orders 0) _ rows))
              (total_pages-enough (length rows) p low))

    -- The same, by whatever query was parsed.
    pages_for :
        (p : ℕ) (s u : Time) (q : RequestListQuery)
        → size_parsed ≡ ok p
        → since_parsed ≡ ok s
        → until_parsed ≡ ok u
        → query_made p (1, wrap_int64 ((1 - 1) * p)) s u ≡ q
        → 1 ≤ p
        → p ≤ 100
        → pages_named (orders 0) like id q requests * q.per_page < 9_223_372_036_854_775_808
        → ((k : ℕ) → k ≤ pages_named (orders 0) like id q requests → IsShown lib show (suc k))
        → ((k : ℕ)
            → all_rows (orders k) like id q requests ≡ all_rows (orders 0) like id q requests)
        → pages_read lib get orders like id requests show
            (pages_named (orders 0) like id q requests)
          ≡ all_rows (orders 0) like id q requests
    unfolding query_made
    pages_for p s u q es ess eu made low high =
        subst
          (λ t.
            pages_named (orders 0) like id t requests * t.per_page < 9_223_372_036_854_775_808
            → ((k : ℕ) → k ≤ pages_named (orders 0) like id t requests → IsShown lib show (suc k))
            → ((k : ℕ)
                → all_rows (orders k) like id t requests ≡ all_rows (orders 0) like id t requests)
            → pages_read lib get orders like id requests show
                (pages_named (orders 0) like id t requests)
              ≡ all_rows (orders 0) like id t requests)
          (ap (λ w. query_made p (1, w) s u) (sym (zero_offset p)) ∙ made)
          (pages_made p s u es ess eu low high)

-- A client that asks for the first page by its number, gets an answer, and then asks for every page that
-- the answer names, by its number and with the same parameters otherwise, gets every request that
-- matches, once, in the order of the list: the pages are together the whole list, whatever the filters,
-- the order and the size of a page are. No offset is given, Atoi reads the numbers of the pages back,
-- the pages have fewer than 2 ^ 63 places, nothing is stored between the queries, and the database sorts
-- the rows alike in each of them, also those of the same second.
pub pages_of-parse_request_list_query :
    (lib : ListLibs) (get : String → String) (orders : ℕ → OrderBy Request)
    (like : String → String → Bool) (id : String) (requests : List Request) (show : ℕ → String)
    (q : RequestListQuery)
    → trim_space (get "offset") ≡ ""
    → parse_request_list_query lib (page_get show get 1) ≡ ok q
    → pages_named (orders 0) like id q requests * q.per_page < 9_223_372_036_854_775_808
    → ((page : ℕ) → page ≤ pages_named (orders 0) like id q requests → IsShown lib show (suc page))
    → ((k : ℕ) → all_rows (orders k) like id q requests ≡ all_rows (orders 0) like id q requests)
    → pages_read lib get orders like id requests show (pages_named (orders 0) like id q requests)
      ≡ all_rows (orders 0) like id q requests
unfolding size_parsed
pages_of-parse_request_list_query lib get orders like id requests show q blank first small numbers
      ties =
    let (p, s, u, es, ess, eu, made) =
      parsed (size_parsed lib get) (λ p. (1, wrap_int64 ((1 - 1) * p))) (since_parsed lib get)
        (until_parsed lib get) (query_made lib get) q
        (sym (parsed_steps lib get show 0 blank (numbers 0 (omega arith))) ∙ first) in
    let bounds =
      per_page_of-bounds lib (trim_space (first_non_empty (get "per_page") (get "limit"))) p es in
    pages_for lib get orders like id requests show blank p s u q es ess eu made bounds.0 bounds.1
      small numbers ties
