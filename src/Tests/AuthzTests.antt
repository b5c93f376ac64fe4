-- ===== src/Tests/AuthzTests.antt =====
-- The checks of internal/authz/authz.go on the sample database.
use hookwatch.Authz.{can_access_token, delete, edit}
use hookwatch.Authz.Policy.{Permits, Permits-can_access_token, can_access_token-Permits}
use hookwatch.Authz.Standing.{access_nested, lesser}
use hookwatch.Prelude.{all, false, inr, refl, some, true, ◌≡◌}
use hookwatch.Store.Grants.{get_hook_grant}
use hookwatch.Tests.Samples.{bob, bobs_grant, hook, sample_db}

can_access_token-Permits_example : Permits "local" (some bob) hook edit sample_db
unfolding can_access_token get_hook_grant
can_access_token-Permits_example =
    can_access_token-Permits false "local" (some bob) hook edit sample_db refl

Permits-can_access_token_example :
    can_access_token false "local" (some bob) hook edit sample_db ≡ true
Permits-can_access_token_example =
    Permits-can_access_token "local" (some bob) hook edit sample_db
      (inr (inr (bob, refl, inr (inr (bobs_grant, refl, refl)))))

bob_edits : can_access_token false "local" (some bob) hook edit sample_db ≡ true
unfolding can_access_token get_hook_grant
bob_edits = refl

access_nested_example :
    all (λ a. can_access_token false "local" (some bob) hook a sample_db) (lesser edit) ≡ true
access_nested_example = access_nested false "local" (some bob) hook edit sample_db bob_edits

editor_cannot_delete : can_access_token false "local" (some bob) hook delete sample_db ≡ false
unfolding can_access_token get_hook_grant
editor_cannot_delete = refl
