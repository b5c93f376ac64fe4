-- ===== src/Header.antt =====
-- net/http's `http.Header` and net/url's `url.Values` as the handlers use them: lists of keys with
-- their values, a key at most once. The keys that the code writes are in canonical form.
use hookwatch.Prelude.{
  List, String, [], arith, eq_iff, false, if◌then◌else◌, nat_eq, not, refl, select, string_eq, ◌==◌,
  ◌∷◌, ◌≡◌,
}

abbrev pub Header : Type 0
Header = List (String × List String)

abbrev first_value : List String → String
first_value [] = ""
first_value (v ∷ vs) = v

-- Get: the first value of a key, "" where there is none.
unfoldable pub get : String → Header → String
get key [] = ""
get key ((k, vs) ∷ h) = if k == key then first_value vs else get key h

unfoldable pub del : String → Header → Header
del key h = select (λ entry. not (entry.0 == key)) h

-- Set: the key has this value alone, at its old place if it had one.
unfoldable pub set : String → String → Header → Header
set key value [] = (key, value ∷ []) ∷ []
set key value ((k, vs) ∷ h) =
    let rest = set key value h in if k == key then (k, value ∷ []) ∷ h else (k, vs) ∷ rest

pub get-del : (key : String) (h : Header) → get key (del key h) ≡ ""
unfolding get del
get-del key [] = refl
get-del key ((k, vs) ∷ h) = ground (arith, get-del key h)

pub get-del_other :
    (key other : String) (h : Header) → (key == other) ≡ false → get key (del other h) ≡ get key h
unfolding get del
get-del_other key other [] e = refl
get-del_other key other ((k, vs) ∷ h) e =
    ground (arith, e, eq_iff k key, eq_iff k other, eq_iff key other, get-del_other key other h e)
