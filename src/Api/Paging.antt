-- ===== src/Api/Paging.antt =====
-- internal/api/requests.go with internal/store/store.go: the pages of a list of requests.
pub mod ByNumber
use hookwatch.Api.ListQuery.{RequestListQuery, total_pages}
use hookwatch.Api.RequestHandlers.{store_params}
use hookwatch.Header.{get}
use hookwatch.Models.{Request}
use hookwatch.Prelude.{
  Bool, Bool-cases, List, Result, String, [], ap, arith, drop, err, false, if◌then◌else◌, inl, inr,
  length, nat_beq_iff, nat_eq, ok, pos, refl, select, string_eq, suc, sym, take, zero, ℕ, ◌%◌, ◌*◌,
  ◌++◌, ◌+◌, ◌-◌, ◌/◌, ◌<◌, ◌==◌, ◌∙◌, ◌∷◌, ◌≡◌, ◌≤◌,
}
use hookwatch.Store.Listing.{normalize_limit, sort_direction}
use hookwatch.Store.Order.{OrderBy}
use hookwatch.Store.RequestLists.{matches_request, request_page}
use native.Mathlib.Omega.{div_fact, mod_fact}

-- The pages 0, 1, … n - 1 one after the other.
abbrev pub pages_of : {A : Type 0} → (ℕ → List A) → ℕ → List A
pages_of page zero = []
pages_of page (suc n) = pages_of page n ++ page n

suc_add : (m n : ℕ) → suc (m + n) ≡ suc m + n
suc_add m n = omega arith

take-nil : {A : Type 0} (n : ℕ) → take {A = A} n [] ≡ []
take-nil zero = refl
take-nil (suc n) = refl

take-next : {A : Type 0} (m n : ℕ) (xs : List A) → take m xs ++ take n (drop m xs) ≡ take (m + n) xs
take-next zero n xs = ap (λ k. take k xs) (omega arith)
take-next (suc m) n [] = take-nil n ∙ sym (take-nil (suc m + n))
take-next (suc m) n (x ∷ xs) =
    ap (λ ys. x ∷ ys) (take-next m n xs) ∙ ap (λ k. take k (x ∷ xs)) (suc_add m n)

pub take-everything : {A : Type 0} (n : ℕ) (xs : List A) → length xs ≤ n → take n xs ≡ xs
take-everything zero [] h = refl
take-everything zero (x ∷ xs) h = ground (arith, h)
take-everything (suc n) [] h = refl
take-everything (suc n) (x ∷ xs) h = ap (λ ys. x ∷ ys) (take-everything n xs (omega (arith, h)))

no_pages : (p : ℕ) → 0 ≡ 0 * p
no_pages p = omega arith

next_page : (n p : ℕ) → n * p + p ≡ suc n * p
next_page n p = omega arith

pub pages_of-take :
    {A : Type 0} (p : ℕ) (xs : List A) (n : ℕ)
    → pages_of (λ k. take p (drop (k * p) xs)) n ≡ take (n * p) xs
pages_of-take p xs zero = ap (λ k. take k xs) (no_pages p)
pages_of-take p xs (suc n) =
    ap (λ ys. ys ++ take p (drop (n * p) xs)) (pages_of-take p xs n)
    ∙ take-next (n * p) p xs
    ∙ ap (λ k. take k xs) (next_page n p)

enough : (total p q r : ℕ) → suc p * q + r ≡ total + suc p - 1 → r < suc p → total ≤ q * suc p
enough total p q r h k = omega (arith, h, k)

pub positive : (p : ℕ) → (suc p == 0) ≡ false
positive p = ground arith

pub total_pages-enough : (total p : ℕ) → 1 ≤ p → total ≤ total_pages total p * p
unfolding total_pages
total_pages-enough total zero h = ground (arith, h)
total_pages-enough total (suc p) h = elim (Bool-cases (total == 0)) [
  | inl z ↦ rw z (omega (arith, (nat_beq_iff total 0).0 z))
  | inr n ↦
      rw (n, positive p)
        (enough total p ((total + suc p - 1) / suc p) ((total + suc p - 1) % suc p)
          (div_fact (total + suc p - 1) p) (mod_fact (total + suc p - 1) p))
]

pub normalize_limit-same : (p : ℕ) → 1 ≤ p → p ≤ 100 → normalize_limit (pos p) ≡ p
unfolding normalize_limit
normalize_limit-same p h k = ground (arith, h, k)

-- The parameters of a query that asks for a page by its number, and what they are otherwise.
abbrev pub page_get : (ℕ → String) → (String → String) → ℕ → String → String
page_get show get page name = if name == "page" then show page else get name

-- The rows that are listed for a query.
abbrev pub rows_for :
    OrderBy Request
    → (String → String → Bool)
    → String
    → List Request
    → Result String RequestListQuery
    → List Request
rows_for order like id requests (err message) = []
rows_for order like id requests (ok q) =
    (request_page order like id (store_params q) requests).requests

-- All rows that match, in the order of the list.
abbrev pub all_rows :
    OrderBy Request
    → (String → String → Bool)
    → String
    → RequestListQuery
    → List Request
    → List Request
all_rows order like id q requests =
    order.sort (λ r. sort_direction q.order (pos r.created_at))
      (select (matches_request like id (store_params q)) requests)

-- The number of the pages that the answer to a query names.
abbrev pub pages_named :
    OrderBy Request → (String → String → Bool) → String → RequestListQuery → List Request → ℕ
pages_named order like id q requests =
    total_pages (request_page order like id (store_params q) requests).total q.per_page

pub pages_of-same :
    {A : Type 0} (f g : ℕ → List A) (n : ℕ)
    → ((k : ℕ) → k < n → f k ≡ g k)
    → pages_of f n ≡ pages_of g n
pages_of-same f g zero e = refl
pages_of-same f g (suc n) e =
    ap (λ ys. ys ++ f n) (pages_of-same f g n (λ k. λ h. e k (omega (arith, h))))
    ∙ ap (λ ys. pages_of g n ++ ys) (e n (omega arith))
