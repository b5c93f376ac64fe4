-- ===== src/Tests/Sorting.antt =====
-- ORDER BY as an insertion sort: rows with one key keep their order.
use hookwatch.Prelude.{
  All, All-map, Bool, Bool-cases, List, [], arith, count, if◌then◌else◌, inl, inr, leb_ℤ, refl, ℤ,
  ◌∙◌, ◌∷◌, ◌≡◌, ◌≤ℤ◌,
}
use hookwatch.Store.Order.{Ascending, OrderBy}

module _ {A : Type 0} (key : A → ℤ) where
  abbrev pub insert : A → List A → List A
  insert x [] = x ∷ []
  insert x (y ∷ ys) =
      let rest = insert x ys in if leb_ℤ (key x) (key y) then x ∷ y ∷ ys else y ∷ rest

  abbrev pub sorted : List A → List A
  sorted [] = []
  sorted (x ∷ xs) = insert x (sorted xs)

  count-insert : (p : A → Bool) (x : A) (ys : List A) → count p (insert x ys) ≡ count p (x ∷ ys)
  count-insert p x [] = refl
  count-insert p x (y ∷ ys) = elim (Bool-cases (leb_ℤ (key x) (key y))) [
    | inl e ↦ rw e refl
    | inr e ↦ rw e (ground (arith, count-insert p x ys))
  ]

  pub count-sorted : (p : A → Bool) (xs : List A) → count p (sorted xs) ≡ count p xs
  count-sorted p [] = refl
  count-sorted p (x ∷ xs) = count-insert p x (sorted xs) ∙ ground (arith, count-sorted p xs)

  All-insert : (P : A → Type 0) (x : A) (ys : List A) → P x → All P ys → All P (insert x ys)
  All-insert P x [] h hs = (h, tt)
  All-insert P x (y ∷ ys) h hs = elim (Bool-cases (leb_ℤ (key x) (key y))) [
    | inl e ↦ rw e (h, hs)
    | inr e ↦ rw e (hs.0, All-insert P x ys h hs.1)
  ]

  insert-Ascending : (x : A) (ys : List A) → Ascending key ys → Ascending key (insert x ys)
  insert-Ascending x [] h = (tt, tt)
  insert-Ascending x (y ∷ ys) h = elim (Bool-cases (leb_ℤ (key x) (key y))) [
    | inl e ↦ rw e (
      (
        ground (arith, e),
        All-map (λ z. key y ≤ℤ key z) (λ z. key x ≤ℤ key z) (λ z l. ground (arith, e, l)) ys h.0,
      ),
      h,
    )
    | inr e ↦
        rw e
          (All-insert (λ z. key y ≤ℤ key z) x ys (ground (arith, e)) h.0, insert-Ascending x ys h.1)
  ]

  pub sorted-Ascending : (xs : List A) → Ascending key (sorted xs)
  sorted-Ascending [] = tt
  sorted-Ascending (x ∷ xs) = insert-Ascending x (sorted xs) (sorted-Ascending xs)

abbrev pub by_insertion : {A : Type 0} → OrderBy A
by_insertion = record {
  sort = λ key xs. sorted key xs;
  same_rows = λ key p xs. count-sorted key p xs;
  in_order = λ key xs. sorted-Ascending key xs;
}
