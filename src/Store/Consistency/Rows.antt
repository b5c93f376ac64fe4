-- ===== src/Store/Consistency/Rows.antt =====
-- Every operation on requests, grants and sessions keeps the references.
use hookwatch.Models.{HookGrant, Request, Session, Token}
use hookwatch.Prelude.{
  All-append, All-select, Bool, Bool-cases, List, Result, String, [], any, any-append_left, arith,
  err, false, if◌then◌else◌, inl, inr, nat_eq, string_eq, true, ◌&&◌, ◌++◌, ◌==◌, ◌||◌, ◌∷◌, ◌≡◌,
}
use hookwatch.Store.Consistency.{IsConsistent}
use hookwatch.Store.Consistency.Deletes.{delete_requests_where-IsConsistent}
use hookwatch.Store.Consistency.Tables.{
  grants-IsConsistent, requests-IsConsistent, sessions-IsConsistent,
}
use hookwatch.Store.Db.{
  Db, StoreError, driver, not_found, quota_exceeded, request_exists, token_exists, user_exists,
}
use hookwatch.Store.Grants.{create_hook_grant, delete_grants_where, grant_row}
use hookwatch.Store.Requests.{
  create_request, delete_all_requests_by_token, delete_request, has_room, request_row-token,
}
use hookwatch.Store.Sessions.{create_session, delete_sessions_where, session_row}

module _ {db : Db} (v : IsConsistent db) where
  -- A row for which the EXISTS of the insertion holds has its token.
  room_token :
      (id : String) (ts : List Token)
      → any (λ t. t.uuid == id && has_room db t) ts ≡ true
      → any (λ t. t.uuid == id) ts ≡ true
  room_token id [] h = cc
  room_token id (t ∷ ts) h = ground (arith, room_token id ts)

  pub create_request-IsConsistent :
      (fails query_fails : Bool) (req : Request)
      → IsConsistent (create_request fails query_fails req db).1
  unfolding create_request
  create_request-IsConsistent true query_fails req = v
  create_request-IsConsistent false query_fails req =
      elim (Bool-cases (any (λ t. t.uuid == req.token_id && has_room db t) db.tokens)) [
        | inl e ↦ rw e (elim (Bool-cases (request_exists req.uuid db)) [
          | inl o ↦ rw o v
          | inr o ↦ rw o (
              requests-IsConsistent v _ (λ id. any-append_left (λ r. r.uuid == id) db.requests _)
                (All-append (λ r. token_exists r.token_id db ≡ true) db.requests _ v.requests_tokens
                  (rw (request_row-token req) (room_token req.token_id db.tokens e), tt)))
        ])
        | inr e ↦ rw e (refused query_fails (token_exists req.token_id db))
      ]
    where
      refused :
          (q t : Bool)
          → IsConsistent (
              let r : Result StoreError (Unit {0}) × Db =
                if q
                then (err driver, db)
                else if t
                then (err quota_exceeded, db)
                else (err not_found, db) in
              r.1)
      refused true t = v
      refused false true = v
      refused false false = v

  pub delete_request-IsConsistent :
      (fails : Bool) (token_id request_id : String)
      → IsConsistent (delete_request fails token_id request_id db).1
  unfolding delete_request
  delete_request-IsConsistent true token_id request_id = v
  delete_request-IsConsistent false token_id request_id =
      elim (Bool-cases (any (λ r. r.token_id == token_id && r.uuid == request_id) db.requests)) [
        | inl e ↦ rw e (delete_requests_where-IsConsistent v _)
        | inr e ↦ rw e v
      ]

  pub delete_all_requests_by_token-IsConsistent :
      (fails : Bool) (token_id : String)
      → IsConsistent (delete_all_requests_by_token fails token_id db).1
  unfolding delete_all_requests_by_token
  delete_all_requests_by_token-IsConsistent true token_id = v
  delete_all_requests_by_token-IsConsistent false token_id =
      elim (Bool-cases (token_exists token_id db)) [
        | inl e ↦ rw e (delete_requests_where-IsConsistent v _)
        | inr e ↦ rw e v
      ]

  add_grant-IsConsistent :
      (g : HookGrant)
      → (token_exists g.token_id db && user_exists g.user_id db && user_exists g.granted_by db)
        ≡ true
      → IsConsistent (record db { hook_grants = db.hook_grants ++ grant_row g ∷ [] })
  unfolding grant_row
  add_grant-IsConsistent g e =
      grants-IsConsistent v _
        (All-append (λ g. token_exists g.token_id db ≡ true) db.hook_grants _ v.grants_tokens
          (ground arith, tt))
        (All-append (λ g. user_exists g.user_id db ≡ true) db.hook_grants _ v.grants_users
          (ground arith, tt))
        (All-append (λ g. user_exists g.granted_by db ≡ true) db.hook_grants _ v.grants_granters
          (ground arith, tt))

  pub create_hook_grant-IsConsistent :
      (fails : Bool) (g : HookGrant) → IsConsistent (create_hook_grant fails g db).1
  unfolding create_hook_grant
  create_hook_grant-IsConsistent true g = v
  create_hook_grant-IsConsistent false g =
      elim (Bool-cases (
        any (λ h. h.id == g.id || (h.token_id == g.token_id && h.user_id == g.user_id))
          db.hook_grants)) [
            | inl e ↦ rw e v
            | inr e ↦
                rw e
                  (elim (Bool-cases (
                    token_exists g.token_id db
                    && user_exists g.user_id db
                    && user_exists g.granted_by db)) [
                      | inl o ↦ rw o (add_grant-IsConsistent g o)
                      | inr o ↦ rw o v
                    ])
          ]

  pub delete_grants_where-IsConsistent :
      (fails : Bool) (p : HookGrant → Bool) → IsConsistent (delete_grants_where fails p db).1
  unfolding delete_grants_where
  delete_grants_where-IsConsistent true p = v
  delete_grants_where-IsConsistent false p = elim (Bool-cases (any p db.hook_grants)) [
    | inl e ↦ rw e (
        grants-IsConsistent v _ (All-select _ _ db.hook_grants v.grants_tokens)
          (All-select _ _ db.hook_grants v.grants_users)
          (All-select _ _ db.hook_grants v.grants_granters))
    | inr e ↦ rw e v
  ]

  pub create_session-IsConsistent :
      (fails : Bool) (session : Session) → IsConsistent (create_session fails session db).1
  unfolding create_session session_row
  create_session-IsConsistent true session = v
  create_session-IsConsistent false session =
      elim (Bool-cases (any (λ s. s.id == session.id) db.sessions)) [
        | inl e ↦ rw e v
        | inr e ↦ elim (Bool-cases (user_exists session.user_id db)) [
          | inl o ↦
              rw (e, o)
                (sessions-IsConsistent v _ (
                  All-append (λ s. user_exists s.user_id db ≡ true) db.sessions _ v.sessions_users
                    (o, tt)))
          | inr o ↦ rw (e, o) v
        ]
      ]

  pub delete_sessions_where-IsConsistent :
      (fails : Bool) (p : Session → Bool) → IsConsistent (delete_sessions_where fails p db).1
  unfolding delete_sessions_where
  delete_sessions_where-IsConsistent true p = v
  delete_sessions_where-IsConsistent false p =
      sessions-IsConsistent v _ (All-select _ _ db.sessions v.sessions_users)
