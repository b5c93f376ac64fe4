-- ===== src/Api/Expiry/Cleanup.antt =====
-- internal/api/expiry.go against internal/store/expiry.go: a token has expired for a request at the
-- same moment as for the periodic deletion, though one compares whole seconds.
use hookwatch.Api.Expiry.{
  LoadError, checked, has_expired, load_active_token, loaded, stored, token_expired,
}
use hookwatch.Models.{Time, Token}
use hookwatch.Prelude.{
  All, All-find, Bool, Bool-cases, List, Option, Result, String, [], arith, count, err, false, find,
  if◌then◌else◌, inl, inr, leb, ltb, nat_beq_iff, nat_eq, none, not, ok, refl, select, some,
  string_eq, sym, true, ◌==◌, ◌∷◌, ◌≡◌, ◌≢◌, ◌≤◌, ◌⊎◌,
}
use hookwatch.Store.Config.{Config}
use hookwatch.Store.Db.{Db, delete_tokens_where, format_time, not_found}
use hookwatch.Store.Tokens.{delete_expired_tokens, get_token, is_expired_row, scan_token, scanned}

-- A row as the store writes it: whole seconds, and an expiry unless the token is persistent.
abbrev pub IsStored : Token → Type 0
IsStored row =
    (format_time row.expires_at ≡ row.expires_at) × ((row.persistent ≡ true) ⊎ (row.expires_at ≢ 0))

second_floor : (e now : Time) → format_time e ≡ e → leb e (format_time now) ≡ not (ltb now e)
unfolding format_time
second_floor e now h = ground arith

-- On one row the two tests agree.
same_test :
    (cfg : Config) (now : Time) (row : Token)
    → IsStored row
    → is_expired_row now row ≡ has_expired now (scan_token cfg row)
unfolding is_expired_row has_expired scan_token
same_test cfg now row (whole, inl p) = ground (arith, p)
same_test cfg now row (whole, inr set) = elim (Bool-cases (row.expires_at == 0)) [
  | inl z ↦ absurd (set ((nat_beq_iff row.expires_at 0).0 z))
  | inr z ↦ rw (z, second_floor row.expires_at now whole) (ground arith)
]

-- A row that the list does not have is not among those that stay.
find-select_absent :
    (p : Token → Bool) (id : String) (ts : List Token)
    → count (λ t. t.uuid == id) ts ≤ 0
    → find (λ t. t.uuid == id) (select (λ t. not (p t)) ts) ≡ none
find-select_absent p id [] h = refl
find-select_absent p id (t ∷ ts) h = ground (arith, h, find-select_absent p id ts)

-- What the deletion leaves of the row that a search finds.
kept : (Token → Bool) → Option Token → Option Token
kept p none = none
kept p (some row) = if p row then none else some row

-- Where at most one row has the identifier, the deletion takes it or leaves it.
find-select-not :
    (p : Token → Bool) (id : String) (ts : List Token)
    → count (λ t. t.uuid == id) ts ≤ 1
    → find (λ t. t.uuid == id) (select (λ t. not (p t)) ts) ≡ kept p (find (λ t. t.uuid == id) ts)
unfolding kept
find-select-not p id [] h = refl
find-select-not p id (t ∷ ts) h = elim (Bool-cases (t.uuid == id)) [
  | inl m ↦ elim (Bool-cases (p t)) [
    | inl e ↦ rw (m, e) (find-select_absent p id ts (ground (arith, h, m)))
    | inr e ↦ rw (m, e) (rw m refl)
  ]
  | inr m ↦ elim (Bool-cases (p t)) [
    | inl e ↦ rw (m, e) (find-select-not p id ts (ground (arith, h, m)))
    | inr e ↦ rw (m, e) (rw m (find-select-not p id ts (ground (arith, h, m))))
  ]
]

-- What a load finds after the deletion: an expired token is gone, all else is as before.
unfoldable pub cleaned : Result LoadError Token → Result LoadError Token
cleaned (ok token) = ok token
cleaned (err token_expired) = err (stored not_found)
cleaned (err (stored e)) = err (stored e)

load-kept :
    (cfg : Config) (now : Time) (id : String) (db db' : Db) (o : Option Token)
    → ((row : Token) → o ≡ some row → IsStored row)
    → (loaded false cfg now id false (scanned cfg (kept (is_expired_row now) o)) db').0
      ≡ cleaned (loaded false cfg now id false (scanned cfg o) db).0
unfolding loaded checked scanned kept cleaned
load-kept cfg now id db db' none h = refl
load-kept cfg now id db db' (some row) h = elim (Bool-cases (is_expired_row now row)) [
  | inl e ↦ rw (e, sym (same_test cfg now row (h row refl))) rw e refl
  | inr e ↦ rw (e, sym (same_test cfg now row (h row refl))) rw e refl
]

-- Take a database whose token rows are as the store writes them (whole seconds, an expiry unless
-- persistent) and hold the identifier at most once. A load of the token after the periodic deletion
-- of expired tokens at the same moment answers as a load before it, except that a token which the
-- load would have refused as expired is then not found. No statement fails; the load does not touch.
pub delete_expired_tokens-load_active_token :
    (cfg : Config) (now : Time) (id : String) (db : Db)
    → All IsStored db.tokens
    → count (λ t. t.uuid == id) db.tokens ≤ 1
    → (load_active_token false false cfg now id false (delete_expired_tokens false now db).1).0
      ≡ cleaned (load_active_token false false cfg now id false db).0
unfolding load_active_token get_token delete_expired_tokens delete_tokens_where
delete_expired_tokens-load_active_token cfg now id db rows once =
    rw (find-select-not (is_expired_row now) id db.tokens once) (
      load-kept cfg now id db (delete_expired_tokens false now db).1
        (find (λ t. t.uuid == id) db.tokens)
        (λ row. All-find IsStored (λ t. t.uuid == id) row db.tokens rows))
