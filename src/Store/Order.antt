-- ===== src/Store/Order.antt =====
-- SQLite's ORDER BY and transactions, as the store uses them. Neither is part of the repository,
-- so both are interfaces: operations with the documented behaviour as their laws.
use hookwatch.Prelude.{All, Bool, List, [], count, false, true, ℤ, ◌∷◌, ◌≡◌, ◌≤ℤ◌}
use hookwatch.Store.Db.{Db}

-- The rows stand in the order of a key; rows with the same key in any order.
abbrev pub Ascending {ℓ} : {A : Type ℓ} → (A → ℤ) → List A → Type 0
Ascending key [] = Unit
Ascending key (x ∷ xs) = All (λ y. key x ≤ℤ key y) xs × Ascending key xs

-- ORDER BY key ASC: the same rows, in order.
pub record OrderBy (A : Type 0) : Type 0 where
  pub sort : (A → ℤ) → List A → List A
  pub same_rows : (key : A → ℤ) (p : A → Bool) (xs : List A) → count p (sort key xs) ≡ count p xs
  pub in_order : (key : A → ℤ) (xs : List A) → Ascending key (sort key xs)

-- sqlitex.ImmediateTransaction: the function that ends it looks at the error variable that it was
-- given (`true` for an error), and commits the tables as they are or restores those before.
pub record Transaction : Type 0 where
  pub end_fn : Bool → Db → Db → Db
  pub commits : (before after : Db) → end_fn false before after ≡ after
  pub rolls_back : (before after : Db) → end_fn true before after ≡ before
