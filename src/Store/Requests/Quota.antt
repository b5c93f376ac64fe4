-- ===== src/Store/Requests/Quota.antt =====
-- internal/store/store.go, CreateRequest: the quota of a token.
use hookwatch.Models.{Request, Token}
use hookwatch.Prelude.{
  Bool, Bool-cases, List, String, [], any, ap, arith, count, count-append, eq_iff, err, false, find,
  if◌then◌else◌, inl, inr, leb_ℤ, ltb_ℤ, nat_eq, ok, pos, refl, some, string_eq, subst, suc, sym,
  true, ℕ, ℤ, ◌&&◌, ◌++◌, ◌+◌, ◌==◌, ◌||◌, ◌∙◌, ◌∷◌, ◌≡◌, ◌≤◌,
}
use hookwatch.Store.Db.{Db, quota_exceeded, request_exists, token_exists}
use hookwatch.Store.Requests.{
  count_requests, create_request, has_room, request_row, request_row-token, with_status,
}

absent-any :
    (r : Token → Bool) (id : String) (ts : List Token)
    → count (λ t. t.uuid == id) ts ≤ 0
    → any (λ t. t.uuid == id && r t) ts ≡ false
absent-any r id [] h = refl
absent-any r id (t ∷ ts) h = ground (arith, h, absent-any r id ts)

-- Where one row has the identifier, the condition of the insertion is about that row.
any-find :
    (r : Token → Bool) (id : String) (token : Token) (ts : List Token)
    → count (λ t. t.uuid == id) ts ≤ 1
    → find (λ t. t.uuid == id) ts ≡ some token
    → any (λ t. t.uuid == id && r t) ts ≡ r token
any-find r id token [] h e = ground (arith, e)
any-find r id token (t ∷ ts) h e = elim (Bool-cases (t.uuid == id)) [
  | inl m ↦ ground (arith, e, m, absent-any r id ts (ground (arith, h, m)))
  | inr m ↦ ground (arith, e, m, h, any-find r id token ts)
]

found-any :
    (id : String) (token : Token) (ts : List Token)
    → find (λ t. t.uuid == id) ts ≡ some token
    → any (λ t. t.uuid == id) ts ≡ true
found-any id token [] e = ground (arith, e)
found-any id token (t ∷ ts) e = ground (arith, e, found-any id token ts)

found-same :
    (id : String) (token : Token) (ts : List Token)
    → find (λ t. t.uuid == id) ts ≡ some token
    → token.uuid ≡ id
found-same id token [] e = ground (arith, e)
found-same id token (t ∷ ts) e = elim (Bool-cases (t.uuid == id)) [
  | inl m ↦
      let same : t ≡ token = ground (arith, e, m) in
      subst (λ (u : Token). u.uuid ≡ id) same ((eq_iff t.uuid id).0 m)
  | inr m ↦ found-same id token ts (ground (arith, e, m))
]

-- Whether a quota leaves room for one more request: a quota of 0 or less is none.
abbrev pub leaves_room : ℤ → ℕ → Bool
leaves_room quota n = leb_ℤ quota (pos 0) || ltb_ℤ (pos n) quota

room-found :
    (id : String) (token : Token) (db : Db)
    → count (λ t. t.uuid == id) db.tokens ≤ 1
    → find (λ t. t.uuid == id) db.tokens ≡ some token
    → any (λ t. t.uuid == id && has_room db t) db.tokens
      ≡ leaves_room token.max_requests (count_requests id db.requests)
unfolding has_room
room-found id token db once found =
    any-find (has_room db) id token db.tokens once found
    ∙ ap (λ i. leaves_room token.max_requests (count_requests i db.requests))
        (found-same id token db.tokens found)

-- For a token that the database has once: a request with a new identifier that no failure stops is
-- stored if and only if the quota leaves room, it is then the last row and the only change; otherwise
-- the error is `quota_exceeded` and nothing changes.
pub create_request-quota :
    (req : Request) (token : Token) (db : Db)
    → count (λ t. t.uuid == req.token_id) db.tokens ≤ 1
    → find (λ t. t.uuid == req.token_id) db.tokens ≡ some token
    → request_exists req.uuid db ≡ false
    → create_request false false req db ≡ (
        if leaves_room token.max_requests (count_requests req.token_id db.requests)
        then (ok tt, record db { requests = db.requests ++ request_row (with_status req) ∷ [] })
        else (err quota_exceeded, db))
unfolding create_request has_room
create_request-quota req token db once found fresh =
    rw
      (
        room-found req.token_id token db once found,
        fresh,
        found-any req.token_id token db.tokens found,
      )
      refl

room-below : (quota n : ℕ) → leaves_room (pos (suc quota)) n ≡ true → n + 1 ≤ suc quota
room-below quota n h = ground (arith, h)

stored_within :
    (req : Request) (id : String) (token : Token) (quota : ℕ) (db : Db)
    → count (λ t. t.uuid == id) db.tokens ≤ 1
    → find (λ t. t.uuid == id) db.tokens ≡ some token
    → token.max_requests ≡ pos (suc quota)
    → count_requests id db.requests ≤ suc quota
    → any (λ t. t.uuid == req.token_id && has_room db t) db.tokens ≡ true
    → count_requests id (db.requests ++ request_row (with_status req) ∷ []) ≤ suc quota
unfolding count_requests
stored_within req id token quota db once found set within room =
    rw
      (
        count-append (λ r. r.token_id == id) db.requests (request_row (with_status req) ∷ []),
        request_row-token req,
      )
      (elim (Bool-cases (req.token_id == id)) [
        | inl m ↦ rw m (
            room-below quota (count_requests id db.requests) (
              ap (λ q. leaves_room q (count_requests id db.requests)) (sym set)
              ∙ sym (room-found id token db once found)
              ∙ subst (λ i. any (λ t. t.uuid == i && has_room db t) db.tokens ≡ true)
                  ((eq_iff req.token_id id).0 m) room))
        | inr m ↦ ground (arith, m)
      ])

-- Any call of CreateRequest, on any branch and for any token, leaves a token that the database has
-- once and whose quota is above 0 within its quota, if it was.
pub create_request-within_quota :
    (fails query_fails : Bool) (req : Request) (id : String) (token : Token) (quota : ℕ) (db : Db)
    → count (λ t. t.uuid == id) db.tokens ≤ 1
    → find (λ t. t.uuid == id) db.tokens ≡ some token
    → token.max_requests ≡ pos (suc quota)
    → count_requests id db.requests ≤ suc quota
    → count_requests id (create_request fails query_fails req db).1.requests ≤ suc quota
unfolding create_request
create_request-within_quota fails query_fails req id token quota db once found set within =
    elim (Bool-cases fails) [
      | inl e ↦ rw e within
      | inr e ↦ elim (Bool-cases (any (λ t. t.uuid == req.token_id && has_room db t) db.tokens)) [
        | inl c ↦ elim (Bool-cases (request_exists req.uuid db)) [
          | inl d ↦ rw (e, c, d) within
          | inr d ↦ rw (e, c, d) (stored_within req id token quota db once found set within c)
        ]
        | inr c ↦
            rw (e, c)
              (elim (Bool-cases query_fails) [
                | inl q ↦ rw q within
                | inr q ↦ elim (Bool-cases (token_exists req.token_id db)) [
                  | inl x ↦ rw (q, x) within
                  | inr x ↦ rw (q, x) within
                ]
              ])
      ]
    ]
