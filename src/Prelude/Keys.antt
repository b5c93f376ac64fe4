-- ===== src/Prelude/Keys.antt =====
-- Tables with a primary key: what a row looked up by its key becomes when rows are added or deleted.
use Prim.Native.String.{String}
use hookwatch.Prelude.Lists.{any, any-append, any-select, find, find-any, select}
use hookwatch.Prelude.Tests.{Bool-cases, if◌then◌else◌, nat_eq, string_eq, ◌==◌}
use mathlib.Core.Bool.{Bool, false, true, ◌&&◌}
use mathlib.Core.List.{List, [], ◌++◌, ◌∷◌}
use mathlib.Core.Logic.{inl, inr}
use mathlib.Core.Option.{Option, none, some}
use mathlib.Core.Path.{ap, refl, sym, ◌∙◌, ◌≡◌}
use native.Mathlib.Omega.{arith}
use text.Mathlib.TextEquality.{eq_iff}

-- A row that is kept if it passes a test.
abbrev pub retain {ℓ} : {A : Type ℓ} → (A → Bool) → Option A → Option A
retain q none = none
retain q (some a) = if q a then some a else none

module _ {ℓ} {A : Type ℓ} (key : A → String) where
  -- The row with a key.
  abbrev pub row_with : String → List A → Option A
  row_with k = find (λ a. key a == k)

  abbrev pub has_row : String → List A → Bool
  has_row k = any (λ a. key a == k)

  -- No two rows have the same key.
  abbrev pub HasUniqueKeys : List A → Type 0
  HasUniqueKeys [] = Unit {0}
  HasUniqueKeys (x ∷ xs) = (has_row (key x) xs ≡ false) × HasUniqueKeys xs

  same_key_as :
      (x : A) (k : String) (xs : List A) → (key x == k) ≡ true → has_row (key x) xs ≡ has_row k xs
  same_key_as x k xs e = ap (λ i. has_row i xs) ((eq_iff (key x) k).0 e)

  pub row_with-select :
      (q : A → Bool) (k : String) (xs : List A)
      → HasUniqueKeys xs
      → row_with k (select q xs) ≡ retain q (row_with k xs)
  row_with-select q k [] u = refl
  row_with-select q k (x ∷ xs) u = elim (Bool-cases (key x == k)) [
    | inl e ↦ elim (Bool-cases (q x)) [
      | inl t ↦ rw (t, e, t) refl
      | inr t ↦
          rw (t, e, t)
            (find-any (λ a. key a == k) (select q xs)
              (any-select (λ a. key a == k) q xs (sym (same_key_as x k xs e) ∙ u.0)))
    ]
    | inr e ↦ elim (Bool-cases (q x)) [
      | inl t ↦ rw (t, e) (row_with-select q k xs u.1)
      | inr t ↦ rw (t, e) (row_with-select q k xs u.1)
    ]
  ]

  pub row_with_and :
      (q : A → Bool) (k : String) (xs : List A)
      → HasUniqueKeys xs
      → find (λ a. key a == k && q a) xs ≡ retain q (row_with k xs)
  row_with_and q k [] u = refl
  row_with_and q k (x ∷ xs) u = elim (Bool-cases (key x == k)) [
    | inl e ↦ elim (Bool-cases (q x)) [
      | inl t ↦ rw (e, t) refl
      | inr t ↦
          rw (e, t)
            (row_with_and q k xs u.1
              ∙ ap (retain q) (find-any (λ a. key a == k) xs (sym (same_key_as x k xs e) ∙ u.0)))
    ]
    | inr e ↦ rw e (row_with_and q k xs u.1)
  ]

  pub HasUniqueKeys-select :
      (q : A → Bool) (xs : List A) → HasUniqueKeys xs → HasUniqueKeys (select q xs)
  HasUniqueKeys-select q [] u = tt
  HasUniqueKeys-select q (x ∷ xs) u = elim (Bool-cases (q x)) [
    | inl t ↦ rw t (any-select (λ a. key a == key x) q xs u.0, HasUniqueKeys-select q xs u.1)
    | inr t ↦ rw t (HasUniqueKeys-select q xs u.1)
  ]

  flipped : (x y : A) → (key x == key y) ≡ false → (key y == key x) ≡ false
  flipped x y h = ground (arith, eq_iff (key x) (key y), eq_iff (key y) (key x))

  pub HasUniqueKeys-append :
      (xs : List A) (y : A)
      → HasUniqueKeys xs
      → has_row (key y) xs ≡ false
      → HasUniqueKeys (xs ++ y ∷ [])
  HasUniqueKeys-append [] y u h = (refl, tt)
  HasUniqueKeys-append (x ∷ xs) y u h = (
    any-append (λ a. key a == key x) xs (y ∷ []) ∙ ground (arith, u.0, flipped x y),
    HasUniqueKeys-append xs y u.1 (ground (arith, h)),
  )
