-- ===== src/Tests/LimitTests.antt =====
-- The quota, the rate limit and the expiry of a token at a concrete input.
use hookwatch.Api.Expiry.{load_active_token}
use hookwatch.Api.Expiry.Cleanup.{cleaned, delete_expired_tokens-load_active_token}
use hookwatch.Api.RateLimit.{Hit, rate_limit_middleware}
use hookwatch.Api.RateLimit.Window.{let_through}
use hookwatch.Models.{Time, Token}
use hookwatch.Prelude.{
  List, String, [], arith, err, false, if◌then◌else◌, inr, negsuc, ok, pos, refl, ◌++◌, ◌∷◌, ◌≡◌,
  ◌≤◌,
}
use hookwatch.Store.Db.{Db, format_time, quota_exceeded}
use hookwatch.Store.Listing.{ListParams, TokenPage, list_tokens}
use hookwatch.Store.Listing.Pages.{IsPage, list_tokens-IsPage}
use hookwatch.Store.RateLimits.{increment_rate_limit}
use hookwatch.Store.Requests.{count_requests, create_request, request_row, with_status}
use hookwatch.Store.Requests.Quota.{create_request-quota, create_request-within_quota, leaves_room}
use hookwatch.Store.Tokens.{
  apply_default_token_defaults, create_token, delete_expired_tokens, get_token, scan_token,
}
use hookwatch.Store.Tokens.RoundTrip.{create_token-get_token, in_seconds}
use hookwatch.Tests.Samples.{hook, one_day, request_of, sample_db}
use hookwatch.Tests.Sorting.{by_insertion}

create_request-quota_example : create_request false false (request_of "r2") sample_db ≡ (
    if leaves_room hook.max_requests (count_requests "hook" sample_db.requests)
    then (
      ok tt,
      record sample_db {
        requests = sample_db.requests ++ request_row (with_status (request_of "r2")) ∷ [];
      },
    )
    else (err quota_exceeded, sample_db))
create_request-quota_example =
    create_request-quota (request_of "r2") hook sample_db (omega arith) refl refl

create_request-within_quota_example :
    count_requests "hook" (create_request false false (request_of "r2") sample_db).1.requests ≤ 2
unfolding count_requests
create_request-within_quota_example =
    create_request-within_quota false false (request_of "r2") "hook" hook 1 sample_db (omega arith)
      refl refl (omega arith)

abbrev limited_db : Db
limited_db = record sample_db { tokens = (record hook { rate_limit = pos 1 }) ∷ [] }

abbrev hit_at : String → Time → Hit
hit_at address time = record { token_id = "hook"; remote_addr = address; real_ip = ""; at = time }

abbrev some_hits : List Hit
some_hits = hit_at "a" 1 ∷ hit_at "b" 2 ∷ hit_at "a" 3 ∷ []

-- Of the two hits of one caller the first passes.
one_passes : let_through one_day "a" "hook" 0 some_hits limited_db ≡ 1
unfolding let_through rate_limit_middleware get_token increment_rate_limit
one_passes = refl

delete_expired_tokens-load_active_token_example :
    (load_active_token false false one_day 200_000_000_000 "hook" false
      (delete_expired_tokens false 200_000_000_000 sample_db).1).0
    ≡ cleaned (load_active_token false false one_day 200_000_000_000 "hook" false sample_db).0
unfolding format_time
delete_expired_tokens-load_active_token_example =
    delete_expired_tokens-load_active_token one_day 200_000_000_000 "hook" sample_db
      ((refl, inr (λ e. ground (arith, e))), tt) (omega arith)

abbrev second_hook : Token
second_hook = record hook { uuid = "second"; updated_at = 60_500_000_000; expires_at = 0 }

create_token-get_token_example :
    ((create_token false one_day 0 second_hook sample_db).0
      ≡ ok (apply_default_token_defaults one_day 0 second_hook))
    × (get_token false one_day "second" (create_token false one_day 0 second_hook sample_db).1
        ≡ ok (in_seconds (apply_default_token_defaults one_day 0 second_hook)))
    × (get_token false one_day "hook" (create_token false one_day 0 second_hook sample_db).1
        ≡ get_token false one_day "hook" sample_db)
unfolding apply_default_token_defaults format_time
create_token-get_token_example =
    create_token-get_token one_day 0 second_hook "hook" sample_db refl (inr (omega arith)) refl

abbrev first_page : TokenPage
first_page = record { tokens = hook ∷ []; total = 1; limit = 100; offset = 0 }

abbrev large_page : ListParams
large_page = record { limit = pos 5_000; offset = negsuc 4; sort_by = ""; order = "" }

list_tokens-IsPage_example :
    IsPage by_insertion one_day 60_000_000_000 large_page sample_db.tokens 0 first_page
unfolding list_tokens scan_token
list_tokens-IsPage_example =
    list_tokens-IsPage by_insertion false false one_day 60_000_000_000 large_page sample_db 0
      first_page refl
