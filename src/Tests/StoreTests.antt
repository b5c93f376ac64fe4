-- ===== src/Tests/StoreTests.antt =====
-- The operations of internal/store on the sample database.
use hookwatch.Prelude.{[], err, false, map, ok, refl, ◌∷◌, ◌≡◌}
use hookwatch.Store.Actions.{reorder_actions}
use hookwatch.Store.Actions.Reorder.{place, reorder_actions-place, reorder_actions_partial}
use hookwatch.Store.Consistency.{IsConsistent}
use hookwatch.Store.Consistency.Calls.{
  creates_token, creates_user, deletes_user, empty_db, perform_all, perform_all-IsConsistent,
}
use hookwatch.Store.Db.{missing_action}
use hookwatch.Tests.Samples.{action_of, ann, hook, one_day, sample_db, sqlite_transaction}

perform_all-IsConsistent_example : IsConsistent (
    perform_all one_day sqlite_transaction
      (creates_user false ann ∷ creates_token false 0 hook ∷ deletes_user false "ann" ∷ [])
      empty_db)
perform_all-IsConsistent_example =
    perform_all-IsConsistent one_day sqlite_transaction
      (creates_user false ann ∷ creates_token false 0 hook ∷ deletes_user false "ann" ∷ [])

reorder_actions-place_example :
    reorder_actions sqlite_transaction false (λ i. false) "hook" ("b" ∷ "a" ∷ []) sample_db ≡ (
      ok tt,
      record sample_db { actions = map (place "hook" 0 ("b" ∷ "a" ∷ [])) sample_db.actions },
    )
reorder_actions-place_example =
    reorder_actions-place (λ i. false) (λ i. refl) "hook" sqlite_transaction sample_db
      ("b" ∷ "a" ∷ []) refl

reorder_actions_partial_example :
    reorder_actions sqlite_transaction false (λ i. false) "hook" ("b" ∷ "x" ∷ "a" ∷ []) sample_db
    ≡ (
      err missing_action,
      record sample_db { actions = map (place "hook" 0 ("b" ∷ [])) sample_db.actions },
    )
reorder_actions_partial_example =
    reorder_actions_partial (λ i. false) (λ i. refl) "hook" sqlite_transaction sample_db ("b" ∷ [])
      refl "x" ("a" ∷ []) refl

-- The first action has moved although the call failed.
partial_order_written :
    map (place "hook" 0 ("b" ∷ [])) sample_db.actions ≡ action_of "a" 0 ∷ action_of "b" 0 ∷ []
unfolding place
partial_order_written = refl
