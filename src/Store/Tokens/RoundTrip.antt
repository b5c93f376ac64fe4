-- ===== src/Store/Tokens/RoundTrip.antt =====
-- internal/store/store.go: what GetToken reads back of what CreateToken wrote.
use hookwatch.Models.{Time, Token}
use hookwatch.Prelude.{
  Bool, Bool-cases, String, [], ap, arith, eq_iff, false, find, find-append_fresh, find-append_old,
  inl, inr, nat_eq, not, ok, refl, some, string_eq, true, ◌&&◌, ◌*◌, ◌/◌, ◌==◌, ◌∙◌, ◌∷◌, ◌≡◌, ◌≤◌,
  ◌⊎◌,
}
use hookwatch.Store.Config.{Config}
use hookwatch.Store.Db.{Db, format_time, owner_exists, token_exists}
use hookwatch.Store.Tokens.{
  apply_default_token_defaults, create_token, get_token, scan_token, scanned, token_row,
}

-- A time without its fraction of a second.
abbrev pub whole_seconds : Time → Time
whole_seconds t = t / 1_000_000_000 * 1_000_000_000

-- A token as it is read back: its times without their fractions.
abbrev pub in_seconds : Token → Token
in_seconds token = record token {
  created_at = whole_seconds token.created_at;
  updated_at = whole_seconds token.updated_at;
  expires_at = whole_seconds token.expires_at;
}

-- It is persistent, or expires a second after Go's zero time at the earliest.
abbrev pub IsStorable : Token → Type 0
IsStorable token = (token.persistent ≡ true) ⊎ (1_000_000_000 ≤ token.expires_at)

after_zero : (t : Time) → 1_000_000_000 ≤ t → (whole_seconds t == 0) ≡ false
after_zero t h = ground (arith, h)

scan_token-row :
    (cfg : Config) (token : Token)
    → IsStorable token
    → scan_token cfg (token_row token) ≡ in_seconds token
unfolding scan_token token_row format_time
scan_token-row cfg token (inl p) = elim (Bool-cases (whole_seconds token.expires_at == 0)) [
  | inl z ↦ rw p (ground arith)
  | inr z ↦ rw z refl
]
scan_token-row cfg token (inr n) = rw (after_zero token.expires_at n) refl

apply_default_token_defaults-uuid :
    (cfg : Config) (now : Time) (token : Token)
    → (apply_default_token_defaults cfg now token).uuid ≡ token.uuid
unfolding apply_default_token_defaults
apply_default_token_defaults-uuid cfg now token = ground arith

found :
    (id : String) (token : Token)
    → token.uuid ≡ id
    → find (λ t. t.uuid == id) (token ∷ []) ≡ some token
found id token e = rw ((eq_iff token.uuid id).1 e) refl

-- The condition under which CreateToken writes a row.
abbrev pub is_insertable : Token → Db → Bool
is_insertable token db = not (token_exists token.uuid db) && owner_exists token.owner_id db.users

-- A token whose identifier is new and whose owner exists is created with its defaults, and, if it is
-- persistent or expires at least a second after Go's zero time, a load then gives just this token, with
-- its three times cut to whole seconds. The loads of other tokens give what they gave.
pub create_token-get_token :
    (cfg : Config) (now : Time) (token : Token) (other : String) (db : Db)
    → is_insertable token db ≡ true
    → IsStorable (apply_default_token_defaults cfg now token)
    → (token.uuid == other) ≡ false
    → ((create_token false cfg now token db).0 ≡ ok (apply_default_token_defaults cfg now token))
      × (get_token false cfg token.uuid (create_token false cfg now token db).1
          ≡ ok (in_seconds (apply_default_token_defaults cfg now token)))
      × (get_token false cfg other (create_token false cfg now token db).1
          ≡ get_token false cfg other db)
unfolding create_token get_token scanned token_row
create_token-get_token cfg now token other db fresh storable differ =
    let token' = apply_default_token_defaults cfg now token in
    let new_id : token_exists token.uuid db ≡ false = ground (arith, fresh) in
    let owned : owner_exists token.owner_id db.users ≡ true = ground (arith, fresh) in
    let id : token'.uuid ≡ token.uuid = apply_default_token_defaults-uuid cfg now token in
    rw (new_id, owned)
      (
        refl,
        ap (scanned cfg) (
              find-append_fresh (λ t. t.uuid == token.uuid) db.tokens (token_row token' ∷ []) new_id
              ∙ found token.uuid (token_row token') id)
            ∙ ap (λ t. ok t) (scan_token-row cfg token' storable),
        ap (scanned cfg) (
            find-append_old (λ t. t.uuid == other) db.tokens (token_row token')
              (ap (λ i. i == other) id ∙ differ)),
      )
