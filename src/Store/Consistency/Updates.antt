-- ===== src/Store/Consistency/Updates.antt =====
-- Every operation on tokens keeps the references.
use hookwatch.Models.{Time, Token}
use hookwatch.Prelude.{
  All-append, All-update_where, Bool, Bool-cases, String, any-append_left, any-update_where, arith,
  eq_iff, false, inl, inr, nat_eq, string_eq, true, ◌==◌, ◌≡◌,
}
use hookwatch.Store.Config.{Config}
use hookwatch.Store.Consistency.{IsConsistent}
use hookwatch.Store.Consistency.Deletes.{delete_tokens_where-IsConsistent}
use hookwatch.Store.Consistency.Tables.{tokens-IsConsistent}
use hookwatch.Store.Db.{Db, owner_exists, token_exists}
use hookwatch.Store.Tokens.{
  apply_default_token_defaults, create_token, delete_expired_tokens, delete_token, token_row,
  touch_token_expiry, touched, update_token, updated_row,
}

-- A row whose key is `new` takes the place of one whose key was `old`, and they agree.
pub same_key_found : (old new id : String) → old == new ≡ true → old == id ≡ true → new == id ≡ true
same_key_found old new id m q = ground (arith, eq_iff old new, eq_iff old id, eq_iff new id)

updated_row-uuid :
    (cfg : Config) (now : Time) (token row : Token)
    → (updated_row (apply_default_token_defaults cfg now token) row).uuid ≡ token.uuid
unfolding updated_row apply_default_token_defaults
updated_row-uuid cfg now token row = ground arith

default-owner :
    (cfg : Config) (now : Time) (token : Token)
    → (token_row (apply_default_token_defaults cfg now token)).owner_id ≡ token.owner_id
unfolding token_row apply_default_token_defaults
default-owner cfg now token = ground arith

module _ {db : Db} (v : IsConsistent db) where
  pub create_token-IsConsistent :
      (fails : Bool) (cfg : Config) (now : Time) (token : Token)
      → IsConsistent (create_token fails cfg now token db).1
  unfolding create_token
  create_token-IsConsistent true cfg now token = v
  create_token-IsConsistent false cfg now token = elim (Bool-cases (token_exists token.uuid db)) [
    | inl e ↦ rw e v
    | inr e ↦ rw e (elim (Bool-cases (owner_exists token.owner_id db.users)) [
      | inl o ↦ rw o (
          tokens-IsConsistent v _ (λ id. any-append_left (λ t. t.uuid == id) db.tokens _)
            (All-append (λ t. owner_exists t.owner_id db.users ≡ true) db.tokens _ v.tokens_owners
              (rw (default-owner cfg now token) o, tt)))
      | inr o ↦ rw o v
    ])
  ]

  pub update_token-IsConsistent :
      (fails : Bool) (cfg : Config) (now : Time) (token : Token)
      → IsConsistent (update_token fails cfg now token db).1
  unfolding update_token
  update_token-IsConsistent true cfg now token = v
  update_token-IsConsistent false cfg now token = elim (Bool-cases (token_exists token.uuid db)) [
    | inl e ↦ rw e (
        tokens-IsConsistent v _
          (λ id.
            any-update_where (λ row. row.uuid == token.uuid) (λ t. t.uuid == id)
              (updated_row (apply_default_token_defaults cfg now token)) db.tokens
              (λ row m q.
                rw (updated_row-uuid cfg now token row)
                  (same_key_found row.uuid token.uuid id m q)))
          (All-update_where (λ t. owner_exists t.owner_id db.users ≡ true)
            (λ row. row.uuid == token.uuid)
            (updated_row (apply_default_token_defaults cfg now token)) db.tokens (λ row m h. h)
            v.tokens_owners))
    | inr e ↦ rw e v
  ]

  pub touch_token_expiry-IsConsistent :
      (fails : Bool) (cfg : Config) (uuid : String) (now : Time)
      → IsConsistent (touch_token_expiry fails cfg uuid now db).1
  unfolding touch_token_expiry
  touch_token_expiry-IsConsistent true cfg uuid now = v
  touch_token_expiry-IsConsistent false cfg uuid now = elim (Bool-cases (token_exists uuid db)) [
    | inl e ↦ rw e (
        tokens-IsConsistent v _
          (λ id.
            any-update_where (λ row. row.uuid == uuid) (λ t. t.uuid == id) (touched cfg now)
              db.tokens (λ row m q. q))
          (All-update_where (λ t. owner_exists t.owner_id db.users ≡ true) (λ row. row.uuid == uuid)
            (touched cfg now) db.tokens (λ row m h. h) v.tokens_owners))
    | inr e ↦ rw e v
  ]

  pub delete_token-IsConsistent :
      (fails : Bool) (uuid : String) → IsConsistent (delete_token fails uuid db).1
  unfolding delete_token
  delete_token-IsConsistent true uuid = v
  delete_token-IsConsistent false uuid = elim (Bool-cases (token_exists uuid db)) [
    | inl e ↦ rw e (delete_tokens_where-IsConsistent v _)
    | inr e ↦ rw e v
  ]

  pub delete_expired_tokens-IsConsistent :
      (fails : Bool) (now : Time) → IsConsistent (delete_expired_tokens fails now db).1
  unfolding delete_expired_tokens
  delete_expired_tokens-IsConsistent true now = v
  delete_expired_tokens-IsConsistent false now = delete_tokens_where-IsConsistent v _
