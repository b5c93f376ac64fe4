-- ===== src/Api/RateLimit/Step.antt =====
-- internal/api/ratelimit.go: what one request does to the counters, and when it passes.
use hookwatch.Api.RateLimit.{
  Hit, RateDecision, caller, counted, limited, passed, rate_limit_middleware, rate_limited,
  window_start_of,
}
use hookwatch.Api.RateLimit.Counter.{
  counted-db, own-increment, positive-leb_ℤ, stored_count-increment, window-whole,
}
use hookwatch.Models.{Time, Token}
use hookwatch.Prelude.{
  Bool, Bool-cases, Result, String, ap, arith, eq_iff, err, false, find, if◌then◌else◌, inl, inr,
  leb, leb_ℤ, ltb_ℤ, nat_eq, not, ok, pos, refl, some, string_eq, subst, suc, sym, true, ℕ, ◌&&◌,
  ◌+◌, ◌==◌, ◌∙◌, ◌≡◌,
}
use hookwatch.Store.Config.{Config}
use hookwatch.Store.Db.{Db, StoreError}
use hookwatch.Store.RateLimits.{increment_rate_limit, stored_count}
use hookwatch.Store.Tokens.{get_token, scan_token, scanned}

abbrev pub passes : RateDecision → Bool
passes (passed headers) = true
passes (limited headers) = false

abbrev pub is_hit : String → String → Time → Hit → Bool
is_hit ip id window hit = caller hit == ip && hit.token_id == id && window_start_of hit.at == window

-- Whether the middleware counts the captures of what GetToken returned.
abbrev pub is_limited : Result StoreError Token → Bool
is_limited (err e) = false
is_limited (ok token) = not (leb_ℤ token.rate_limit (pos 0))

-- What one request does to a counter.
rate_limited-counter :
    (ip id : String) (window : Time) (hit : Hit) (t : Result StoreError Token) (db : Db)
    → stored_count ip id window (rate_limited false false hit t db).1.rate_limits
      ≡ stored_count ip id window db.rate_limits
        + (if is_limited t && is_hit ip id window hit then 1 else 0)
unfolding rate_limited increment_rate_limit
rate_limited-counter ip id window hit (err e) db = ground arith
rate_limited-counter ip id window hit (ok token) db =
    elim (Bool-cases (leb_ℤ token.rate_limit (pos 0))) [
      | inl e ↦ rw e (ground arith)
      | inr e ↦
          rw (e, counted-db, window-whole hit.at)
            (stored_count-increment ip id (caller hit) hit.token_id window (window_start_of hit.at)
              db.rate_limits)
    ]

rate_limited-tokens :
    (hit : Hit) (t : Result StoreError Token) (db : Db)
    → (rate_limited false false hit t db).1.tokens ≡ db.tokens
unfolding rate_limited increment_rate_limit
rate_limited-tokens hit (err e) db = refl
rate_limited-tokens hit (ok token) db = elim (Bool-cases (leb_ℤ token.rate_limit (pos 0))) [
  | inl e ↦ rw e refl
  | inr e ↦ rw (e, counted-db) refl
]

pub middleware-tokens :
    (cfg : Config) (hit : Hit) (db : Db)
    → (rate_limit_middleware false false false cfg hit db).1.tokens ≡ db.tokens
unfolding rate_limit_middleware
middleware-tokens cfg hit db = elim (Bool-cases (hit.token_id == "")) [
  | inl e ↦ rw e refl
  | inr e ↦ rw e (rate_limited-tokens hit (get_token false cfg hit.token_id db) db)
]

scan_token-rate_limit :
    (cfg : Config) (row : Token) → (scan_token cfg row).rate_limit ≡ row.rate_limit
unfolding scan_token
scan_token-rate_limit cfg row = ground arith

-- A hook that exists and limits its callers to `suc limit` captures.
unfoldable pub IsLimitedHook : String → ℕ → Db → Type 0
IsLimitedHook id limit db =
    (row : Token) × (find (λ t. t.uuid == id) db.tokens ≡ some row)
    × (row.rate_limit ≡ pos (suc limit))

pub IsLimitedHook-tokens :
    (id : String) (limit : ℕ) (db db' : Db)
    → db'.tokens ≡ db.tokens
    → IsLimitedHook id limit db
    → IsLimitedHook id limit db'
unfolding IsLimitedHook
IsLimitedHook-tokens id limit db db' same (row, found, l) = (row, rw same found, l)

get_token-limit :
    (cfg : Config) (id : String) (limit : ℕ) (db : Db)
    → IsLimitedHook id limit db
    → is_limited (get_token false cfg id db) ≡ true
unfolding get_token scanned IsLimitedHook
get_token-limit cfg id limit db (row, found, l) =
    rw (found, scan_token-rate_limit cfg row, l) (ground arith)

-- Whether a request adds one to a counter.
abbrev pub counts : Config → String → String → Time → Hit → Db → Bool
counts cfg ip id window hit db =
    not (hit.token_id == "")
    && is_limited (get_token false cfg hit.token_id db)
    && is_hit ip id window hit

pub middleware-counter :
    (cfg : Config) (ip id : String) (window : Time) (hit : Hit) (db : Db)
    → stored_count ip id window (rate_limit_middleware false false false cfg hit db).1.rate_limits
      ≡ stored_count ip id window db.rate_limits + (if counts cfg ip id window hit db then 1 else 0)
unfolding rate_limit_middleware
middleware-counter cfg ip id window hit db = elim (Bool-cases (hit.token_id == "")) [
  | inl e ↦ rw e (ground arith)
  | inr e ↦ rw e (rate_limited-counter ip id window hit (get_token false cfg hit.token_id db) db)
]

pub counts-is_hit :
    (cfg : Config) (ip id : String) (window : Time) (limit : ℕ) (hit : Hit) (db : Db)
    → IsLimitedHook id limit db
    → (id == "") ≡ false
    → counts cfg ip id window hit db ≡ is_hit ip id window hit
counts-is_hit cfg ip id window limit hit db hook named = elim (Bool-cases (hit.token_id == id)) [
  | inl e ↦ rw ((eq_iff hit.token_id id).0 e, named, get_token-limit cfg id limit db hook) refl
  | inr e ↦ ground (arith, e)
]

counted-passes :
    (limit n : ℕ) (window : Time) (db : Db)
    → passes (counted (pos (suc limit)) window (ok n, db)).0 ≡ leb n (suc limit)
unfolding counted
counted-passes limit n window db = elim (Bool-cases (ltb_ℤ (pos (suc limit)) (pos n))) [
  | inl e ↦ rw e (ground (arith, e))
  | inr e ↦ rw e (ground (arith, e))
]

-- A request passes if its own counter, with the request, is within the limit.
own-passes :
    (cfg : Config) (limit : ℕ) (hit : Hit) (db : Db)
    → IsLimitedHook hit.token_id limit db
    → (hit.token_id == "") ≡ false
    → passes (rate_limit_middleware false false false cfg hit db).0
      ≡ leb
          (stored_count (caller hit) hit.token_id (window_start_of hit.at) db.rate_limits + 1)
          (suc limit)
unfolding rate_limit_middleware rate_limited increment_rate_limit get_token scanned IsLimitedHook
own-passes cfg limit hit db (row, found, l) named =
    rw (named, found, scan_token-rate_limit cfg row, l, window-whole hit.at, positive-leb_ℤ limit)
      (counted-passes limit _ (window_start_of hit.at) _
        ∙ ap (λ n. leb n (suc limit))
            (own-increment (caller hit) hit.token_id (window_start_of hit.at) db.rate_limits))

pub middleware-passes :
    (cfg : Config) (ip id : String) (window : Time) (limit : ℕ) (hit : Hit) (db : Db)
    → IsLimitedHook id limit db
    → (id == "") ≡ false
    → is_hit ip id window hit ≡ true
    → passes (rate_limit_middleware false false false cfg hit db).0
      ≡ leb (stored_count ip id window db.rate_limits + 1) (suc limit)
middleware-passes cfg ip id window limit hit db hook named e =
    let same_id : hit.token_id ≡ id = (eq_iff hit.token_id id).0 (ground (arith, e)) in
    let same_ip : caller hit ≡ ip = (eq_iff (caller hit) ip).0 (ground (arith, e)) in
    let same_window : window_start_of hit.at ≡ window = ground (arith, e) in
    subst
      (λ i.
        passes (rate_limit_middleware false false false cfg hit db).0
        ≡ leb (stored_count i id window db.rate_limits + 1) (suc limit))
      same_ip
      (subst
        (λ i.
          passes (rate_limit_middleware false false false cfg hit db).0
          ≡ leb (stored_count (caller hit) i window db.rate_limits + 1) (suc limit))
        same_id
        (subst
          (λ w.
            passes (rate_limit_middleware false false false cfg hit db).0
            ≡ leb (stored_count (caller hit) hit.token_id w db.rate_limits + 1) (suc limit))
          same_window
          (own-passes cfg limit hit db (subst (λ i. IsLimitedHook i limit db) (sym same_id) hook)
            (subst (λ i. (i == "") ≡ false) (sym same_id) named))))
