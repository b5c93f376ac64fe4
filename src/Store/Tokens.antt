-- ===== src/Store/Tokens.antt =====
-- internal/store/store.go and expiry.go: the operations on the table of tokens.
-- `fails` says that the pool or SQLite fails at the call, which then changes nothing.
pub mod RoundTrip
use hookwatch.Models.{Time, Token}
use hookwatch.Prelude.{
  Bool, Option, Result, String, [], count, err, false, find, if◌then◌else◌, leb, nat_eq, negsuc,
  none, not, ok, pos, some, string_eq, update_where, ℕ, ℤ, ◌&&◌, ◌++◌, ◌==◌, ◌∷◌,
}
use hookwatch.Store.Config.{Config, add_duration}
use hookwatch.Store.Db.{
  Db, StoreError, Write, delete_tokens_where, driver, foreign_key_violation, format_time, not_found,
  owner_exists, token_exists, unique_violation,
}

abbrev pub is_zero : ℤ → Bool
is_zero (pos n) = n == 0
is_zero (negsuc n) = false

unfoldable pub apply_default_token_max_requests : ℤ → Token → Token
apply_default_token_max_requests default token =
    if is_zero token.max_requests then record token { max_requests = default } else token

-- The time that the default expiry counts from.
unfoldable pub base_time : Time → Token → Time
base_time now token =
    if token.updated_at == 0
    then if token.created_at == 0 then now else token.created_at
    else token.updated_at

unfoldable pub default_expiry : Config → Time → Token → Token
unfolding base_time
default_expiry cfg now token =
    if token.persistent
    then record token { expires_at = 0 }
    else if not (token.expires_at == 0)
    then token
    else record token { expires_at = add_duration (base_time now token) cfg.token_ttl }

unfoldable pub apply_default_token_defaults : Config → Time → Token → Token
unfolding apply_default_token_max_requests default_expiry
apply_default_token_defaults cfg now token =
    default_expiry cfg now (apply_default_token_max_requests cfg.max_requests token)

-- The row that a token is written to: its times lose their fractions.
unfoldable pub token_row : Token → Token
unfolding format_time
token_row token = record token {
  created_at = format_time token.created_at;
  updated_at = format_time token.updated_at;
  expires_at = format_time token.expires_at;
}

-- scanToken: an expiry that is NULL counts from the last update, unless the token is persistent.
unfoldable pub scan_token : Config → Token → Token
scan_token cfg row =
    if row.expires_at == 0 && not row.persistent
    then record row { expires_at = add_duration row.updated_at cfg.token_ttl }
    else row

-- The token that was created comes back with its defaults.
unfoldable pub create_token : Bool → Config → Time → Token → Write Token
unfolding apply_default_token_defaults token_row
create_token fails cfg now token db =
    let token' = apply_default_token_defaults cfg now token in
    if fails
    then (err driver, db)
    else if token_exists token.uuid db
    then (err unique_violation, db)
    else if not (owner_exists token.owner_id db.users)
    then (err foreign_key_violation, db)
    else (ok token', record db { tokens = db.tokens ++ token_row token' ∷ [] })

unfoldable pub scanned : Config → Option Token → Result StoreError Token
unfolding scan_token
scanned cfg none = err not_found
scanned cfg (some row) = ok (scan_token cfg row)

unfoldable pub get_token : Bool → Config → String → Db → Result StoreError Token
unfolding scanned
get_token fails cfg uuid db =
    if fails then err driver else scanned cfg (find (λ t. t.uuid == uuid) db.tokens)

-- UPDATE tokens: the owner and the time of creation stay.
unfoldable pub updated_row : Token → Token → Token
unfolding token_row
updated_row token row = record (token_row token) {
  owner_id = row.owner_id;
  created_at = row.created_at;
}

unfoldable pub update_token : Bool → Config → Time → Token → Write Token
unfolding apply_default_token_defaults updated_row
update_token fails cfg now token db =
    let token' = apply_default_token_defaults cfg now token in
    if fails
    then (err driver, db)
    else if token_exists token.uuid db
    then (
      ok token',
      record db {
        tokens = update_where (λ row. row.uuid == token.uuid) (updated_row token') db.tokens;
      },
    )
    else (err not_found, db)

unfoldable pub delete_token : Bool → String → Write (Unit {0})
unfolding delete_tokens_where
delete_token fails uuid db =
    if fails
    then (err driver, db)
    else if token_exists uuid db
    then (ok tt, delete_tokens_where (λ t. t.uuid == uuid) db)
    else (err not_found, db)

-- UPDATE tokens SET expires_at
unfoldable pub touched : Config → Time → Token → Token
unfolding format_time
touched cfg now row = record row { expires_at = format_time (add_duration now cfg.token_ttl) }

unfoldable pub touch_token_expiry : Bool → Config → String → Time → Write Time
unfolding touched
touch_token_expiry fails cfg uuid now db =
    if fails
    then (err driver, db)
    else if token_exists uuid db
    then (
      ok (add_duration now cfg.token_ttl),
      record db { tokens = update_where (λ row. row.uuid == uuid) (touched cfg now) db.tokens },
    )
    else (err not_found, db)

-- persistent = 0 AND expires_at <= now: no row with a NULL passes.
unfoldable pub is_expired_row : Time → Token → Bool
unfolding format_time
is_expired_row now row =
    not row.persistent && not (row.expires_at == 0) && leb row.expires_at (format_time now)

unfoldable pub delete_expired_tokens : Bool → Time → Write ℕ
unfolding is_expired_row delete_tokens_where
delete_expired_tokens fails now db =
    if fails
    then (err driver, db)
    else (ok (count (is_expired_row now) db.tokens), delete_tokens_where (is_expired_row now) db)
