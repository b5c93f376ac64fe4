-- ===== src/Store/Listing/Pages.antt =====
-- internal/store/store.go: the size of a page.
use hookwatch.Models.{Time, Token}
use hookwatch.Prelude.{
  Bool, Bool-cases, List, Option, Result, [], ap, arith, count, drop, err, false, if◌then◌else◌,
  inl, inr, leb, length, length-select, ltb, map, nat_eq, negsuc, none, ok, pos, refl, select, some,
  string_eq, subst, suc, sym, take, to_lower, true, zero, ℕ, ℤ, ◌*◌, ◌+◌, ◌-ℤ◌, ◌-◌, ◌/◌, ◌==◌,
  ◌||◌, ◌∙◌, ◌∷◌, ◌≡◌, ◌≤◌,
}
use hookwatch.Store.Config.{Config}
use hookwatch.Store.Db.{Db, StoreError, format_time}
use hookwatch.Store.Listing.{
  ListParams, TokenPage, is_active_row, list_tokens, normalize_limit, normalize_offset,
  sort_direction, token_page, token_sort_column,
}
use hookwatch.Store.Order.{OrderBy}
use hookwatch.Store.Tokens.{scan_token}

length-take_all :
    {A : Type 0} (n : ℕ) (xs : List A)
    → length (take n xs) ≡ (if leb n (length xs) then n else length xs)
length-take_all zero xs = ground arith
length-take_all (suc n) [] = ground arith
length-take_all (suc n) (x ∷ xs) = ground (arith, length-take_all n xs)

length-drop : {A : Type 0} (m : ℕ) (xs : List A) → length (drop m xs) ≡ length xs - m
length-drop zero xs = omega arith
length-drop (suc m) [] = omega arith
length-drop (suc m) (x ∷ xs) = omega (arith, length-drop m xs)

length-map : {A B : Type 0} (f : A → B) (xs : List A) → length (map f xs) ≡ length xs
length-map f [] = refl
length-map f (x ∷ xs) = ap (λ n. suc n) (length-map f xs)

count-everything : {A : Type 0} (xs : List A) → count (λ x. true) xs ≡ length xs
count-everything [] = refl
count-everything (x ∷ xs) = ap (λ n. suc n) (count-everything xs)

-- A sort keeps the number of rows.
pub length-sort :
    {A : Type 0} (order : OrderBy A) (key : A → ℤ) (xs : List A)
    → length (order.sort key xs) ≡ length xs
length-sort order key xs =
    sym (count-everything (order.sort key xs))
    ∙ order.same_rows key (λ t. true) xs
    ∙ count-everything xs

normalize_limit-bounds : (limit : ℤ) → (1 ≤ normalize_limit limit) × (normalize_limit limit ≤ 100)
unfolding normalize_limit
normalize_limit-bounds (pos n) = (ground arith, ground arith)
normalize_limit-bounds (negsuc n) = (ground arith, ground arith)

-- The entry of a list with a number, from 0.
abbrev pub entry_of : {A : Type 0} → ℕ → List A → Option A
entry_of i [] = none
entry_of zero (x ∷ xs) = some x
entry_of (suc i) (x ∷ xs) = entry_of i xs

entry_of-nil : {A : Type 0} (i : ℕ) → entry_of {A = A} i [] ≡ none
entry_of-nil zero = refl
entry_of-nil (suc i) = refl

entry_of-take :
    {A : Type 0} (i n : ℕ) (xs : List A)
    → entry_of i (take n xs) ≡ (if ltb i n then entry_of i xs else none)
entry_of-take i zero xs = ground (arith, entry_of-nil i)
entry_of-take zero (suc n) [] = ground arith
entry_of-take (suc i) (suc n) [] = ground arith
entry_of-take zero (suc n) (x ∷ xs) = ground arith
entry_of-take (suc i) (suc n) (x ∷ xs) = ground (arith, entry_of-take i n xs)

suc_add : (m i : ℕ) → suc (m + i) ≡ suc m + i
suc_add m i = omega arith

entry_of-drop : {A : Type 0} (i m : ℕ) (xs : List A) → entry_of i (drop m xs) ≡ entry_of (m + i) xs
entry_of-drop i zero xs = ap (λ k. entry_of k xs) (omega arith)
entry_of-drop i (suc m) [] = refl
entry_of-drop i (suc m) (x ∷ xs) =
    entry_of-drop i m xs ∙ ap (λ k. entry_of k (x ∷ xs)) (suc_add m i)

abbrev pub map_option : {A B : Type 0} → (A → B) → Option A → Option B
map_option f none = none
map_option f (some a) = some (f a)

map_option-if :
    {A B : Type 0} (b : Bool) (f : A → B) (o : Option A)
    → map_option f (if b then o else none) ≡ (if b then map_option f o else none)
map_option-if true f o = refl
map_option-if false f o = refl

entry_of-map :
    {A B : Type 0} (f : A → B) (i : ℕ) (xs : List A)
    → entry_of i (map f xs) ≡ map_option f (entry_of i xs)
entry_of-map f i [] = refl
entry_of-map f zero (x ∷ xs) = refl
entry_of-map f (suc i) (x ∷ xs) = entry_of-map f i xs

-- A hook is listed while it is persistent or its expiry is in a second after the present one.
abbrev pub is_listed : Time → Token → Bool
is_listed now t = t.persistent || ltb (now / 1_000_000_000 * 1_000_000_000) t.expires_at

abbrev listed_time : ListParams → Token → Time
listed_time params t =
    if to_lower params.sort_by == "updated_at" then t.updated_at else t.created_at

-- The listed hooks in the order that the parameters ask for.
abbrev pub listed : OrderBy Token → Time → ListParams → List Token → List Token
listed order now params tokens =
    order.sort
      (λ t.
        if to_lower params.order == "asc"
        then pos (listed_time params t)
        else pos 0 -ℤ pos (listed_time params t))
      (select (is_listed now) tokens)

-- The limit and the offset that the parameters mean.
abbrev pub limit_of : ℤ → ℕ
limit_of (negsuc n) = 50
limit_of (pos n) = if n == 0 then 50 else if ltb 100 n then 100 else n

abbrev pub offset_of : ℤ → ℕ
offset_of (negsuc n) = 0
offset_of (pos n) = n

normalize_limit-limit_of : (limit : ℤ) → normalize_limit limit ≡ limit_of limit
unfolding normalize_limit
normalize_limit-limit_of (pos n) = ground arith
normalize_limit-limit_of (negsuc n) = ground arith

normalize_offset-offset_of : (offset : ℤ) → normalize_offset offset ≡ offset_of offset
unfolding normalize_offset
normalize_offset-offset_of (pos n) = refl
normalize_offset-offset_of (negsuc n) = refl

-- A page says the number of the listed hooks, its limit and its offset are those of the parameters, the
-- limit from 1 to 100, it has just as many tokens as the limit allows and as there are from its offset
-- on, and the token with the number `i` is the listed one with the number offset + i.
unfoldable pub IsPage :
    OrderBy Token → Config → Time → ListParams → List Token → ℕ → TokenPage → Type 0
IsPage order cfg now params tokens i page =
    (page.total ≡ count (is_listed now) tokens)
    × (page.limit ≡ limit_of params.limit)
    × (1 ≤ page.limit)
    × (page.limit ≤ 100)
    × (page.offset ≡ offset_of params.offset)
    × (length page.tokens ≡ (
        if leb page.limit (page.total - page.offset) then page.limit else page.total - page.offset))
    × (entry_of i page.tokens ≡ (
        if ltb i page.limit
        then map_option (scan_token cfg)
            (entry_of (page.offset + i) (listed order now params tokens))
        else none))

token_page-IsPage :
    (order : OrderBy Token) (cfg : Config) (now : Time) (params : ListParams) (tokens : List Token)
    (i : ℕ)
    → IsPage order cfg now params tokens i (token_page order cfg now params tokens)
unfolding token_page IsPage is_active_row format_time sort_direction token_sort_column
token_page-IsPage order cfg now params tokens i =
    let rows = select (is_listed now) tokens in
    let sorted = listed order now params tokens in
    let n = normalize_limit params.limit in
    let m = normalize_offset params.offset in
    let bounds = normalize_limit-bounds params.limit in
    (
      length-select (is_listed now) tokens,
      normalize_limit-limit_of params.limit,
      bounds.0,
      bounds.1,
      normalize_offset-offset_of params.offset,
      length-map (scan_token cfg) (take n (drop m sorted))
          ∙ length-take_all n (drop m sorted)
          ∙ ap (λ l. if leb n l then n else l)
              (length-drop m sorted ∙ ap (λ l. l - m) (length-sort order _ rows)),
      entry_of-map (scan_token cfg) i (take n (drop m sorted))
          ∙ ap (map_option (scan_token cfg)) (
              entry_of-take i n (drop m sorted)
              ∙ ap (λ o. if ltb i n then o else none) (entry_of-drop i m sorted))
          ∙ map_option-if (ltb i n) (scan_token cfg) (entry_of (m + i) sorted),
    )

or_page : TokenPage → Result StoreError TokenPage → TokenPage
or_page d (ok page) = page
or_page d (err e) = d

-- Whatever parameters a caller gives, a list of tokens that does not fail says the number of the hooks
-- that are persistent or expire in a later second than the present one; its limit is the one that was
-- asked for, 50 where that is not positive and 100 at most; its offset is the one that was asked for, 0
-- where that is negative; it has just as many tokens as the limit allows and as there are from its
-- offset on; and its entry `i` is the entry offset + i of these hooks in the order that was asked for,
-- by the update where the column is "updated_at", else by the creation, ascending for "asc", else
-- descending.
pub list_tokens-IsPage :
    (order : OrderBy Token) (fails query_fails : Bool) (cfg : Config) (now : Time)
    → (params : ListParams) (db : Db) (i : ℕ) (page : TokenPage)
    → list_tokens order fails query_fails cfg now params db ≡ ok page
    → IsPage order cfg now params db.tokens i page
unfolding list_tokens or_page
list_tokens-IsPage order fails query_fails cfg now params db i page =
    elim (Bool-cases (fails || query_fails)) [
      | inl e ↦ rw e (λ h. ground (arith, h))
      | inr e ↦ rw e (λ h.
          let first = token_page order cfg now params db.tokens in
          subst (IsPage order cfg now params db.tokens i) (ap (or_page first) h)
            (token_page-IsPage order cfg now params db.tokens i))
    ]
