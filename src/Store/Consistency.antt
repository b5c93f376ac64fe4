-- ===== src/Store/Consistency.antt =====
-- The foreign keys of the schema as an invariant of the tables.
pub mod Tables
pub mod Deletes
pub mod Updates
pub mod Rows
pub mod People
pub mod Pipelines
pub mod Calls
use hookwatch.Prelude.{
  All, Bool, Bool-cases, List, [], any, arith, false, inl, inr, not, select, true, ◌&&◌, ◌∷◌, ◌≡◌,
}
use hookwatch.Store.Db.{Db, action_exists, owner_exists, request_exists, token_exists, user_exists}

-- Every reference of a row leads to a row.
pub record IsConsistent (db : Db) : Type 0 where
  pub sessions_users : All (λ s. user_exists s.user_id db ≡ true) db.sessions
  pub tokens_owners : All (λ t. owner_exists t.owner_id db.users ≡ true) db.tokens
  pub requests_tokens : All (λ r. token_exists r.token_id db ≡ true) db.requests
  pub grants_tokens : All (λ g. token_exists g.token_id db ≡ true) db.hook_grants
  pub grants_users : All (λ g. user_exists g.user_id db ≡ true) db.hook_grants
  pub grants_granters : All (λ g. user_exists g.granted_by db ≡ true) db.hook_grants
  pub actions_tokens : All (λ a. token_exists a.token_id db ≡ true) db.actions
  pub logs_actions : All (λ l. action_exists l.action_id db ≡ true) db.action_logs
  pub logs_requests : All (λ l. request_exists l.request_id db ≡ true) db.action_logs

module _ {ℓ} {A : Type ℓ} where
  -- A row that is found and is not among the deleted ones is still found.
  any-select-not :
      (p q : A → Bool) (xs : List A)
      → any q xs ≡ true
      → any (λ x. p x && q x) xs ≡ false
      → any q (select (λ x. not (p x)) xs) ≡ true
  any-select-not p q [] h k = cc
  any-select-not p q (x ∷ xs) h k = ground (arith, any-select-not p q xs)

  -- Of the children of deleted rows none is left, so the others keep their parents.
  select-keeps {κ} :
      {B : Type κ} (p : A → Bool) (key : B → A → Bool) (xs : List A) (ys : List B)
      → All (λ y. any (key y) xs ≡ true) ys
      → All
          (λ y. any (key y) (select (λ x. not (p x)) xs) ≡ true)
          (select (λ y. not (any (λ x. p x && key y x) xs)) ys)
  select-keeps p key xs [] h = tt
  select-keeps p key xs (y ∷ ys) h = elim (Bool-cases (any (λ x. p x && key y x) xs)) [
    | inl e ↦ rw e (select-keeps p key xs ys h.1)
    | inr e ↦ rw e (any-select-not p (key y) xs h.0 e, select-keeps p key xs ys h.1)
  ]
