-- ===== src/Store/Consistency/People.antt =====
-- Every operation on users keeps the references.
use hookwatch.Models.{HookGrant, Token, User}
use hookwatch.Prelude.{
  All, All-map, All-select, Bool, Bool-cases, List, Option, String, [], any, any-append_left,
  any-update_where, arith, eq_iff, false, holds, inl, inr, nat_eq, none, not, refl, select, some,
  string_eq, true, update_where, ◌&&◌, ◌==◌, ◌∷◌, ◌≡◌,
}
use hookwatch.Store.Consistency.{IsConsistent, any-select-not}
use hookwatch.Store.Consistency.Tables.{users-IsConsistent}
use hookwatch.Store.Db.{Db, owner_exists, token_exists, user_exists}
use hookwatch.Store.Users.{
  conflicts, create_user, delete_user, remove_user, update_user, updated_user,
}

-- Another user than the deleted one is still there.
other_user :
    (id k : String) (us : List User)
    → k == id ≡ false
    → any (λ u. u.id == id && u.id == k) us ≡ false
other_user id k [] h = refl
other_user id k (u ∷ us) h =
    ground (arith, eq_iff u.id id, eq_iff u.id k, eq_iff k id, other_user id k us h)

user_stays :
    (id k : String) (us : List User)
    → any (λ u. u.id == k) us ≡ true
    → k == id ≡ false
    → any (λ u. u.id == k) (select (λ u. not (u.id == id)) us) ≡ true
user_stays id k us h n =
    any-select-not (λ u. u.id == id) (λ u. u.id == k) us h (other_user id k us n)

-- Of the rows that refer to a user by `key`, those that stay refer to another one than the deleted.
select-user_stays {ℓ} :
    {B : Type ℓ} (id : String) (key : B → String) (us : List User) (ys : List B)
    → All (λ y. any (λ u. u.id == key y) us ≡ true) ys
    → All
        (λ y. any (λ u. u.id == key y) (select (λ u. not (u.id == id)) us) ≡ true)
        (select (λ y. not (key y == id)) ys)
select-user_stays id key us [] h = tt
select-user_stays id key us (y ∷ ys) h = elim (Bool-cases (key y == id)) [
  | inl e ↦ rw e (select-user_stays id key us ys h.1)
  | inr e ↦ rw e (user_stays id (key y) us h.0 e, select-user_stays id key us ys h.1)
]

-- The check of `granted_by`: what stays of the grants was given by another user.
granter_stays :
    (id : String) (us : List User) (gs : List HookGrant)
    → any (λ g. g.granted_by == id && not (g.user_id == id)) gs ≡ false
    → All (λ g. any (λ u. u.id == g.granted_by) us ≡ true) gs
    → All
        (λ g. any (λ u. u.id == g.granted_by) (select (λ u. not (u.id == id)) us) ≡ true)
        (select (λ g. not (g.user_id == id)) gs)
granter_stays id us [] n h = tt
granter_stays id us (g ∷ gs) n h = elim (Bool-cases (g.user_id == id)) [
  | inl e ↦ rw e (granter_stays id us gs (ground arith) h.1)
  | inr e ↦
      rw e (
        user_stays id g.granted_by us h.0 (ground arith),
        granter_stays id us gs (ground arith) h.1,
      )
]

owner_known :
    (id : String) (us : List User) (o : Option String)
    → holds o id ≡ false
    → owner_exists o us ≡ true
    → owner_exists o (select (λ u. not (u.id == id)) us) ≡ true
owner_known id us none n h = refl
owner_known id us (some k) n h = user_stays id k us h n

owner_stays :
    (id : String) (us : List User) (ts : List Token)
    → All (λ t. owner_exists t.owner_id us ≡ true) ts
    → All
        (λ t. owner_exists t.owner_id (select (λ u. not (u.id == id)) us) ≡ true)
        (update_where (λ t. holds t.owner_id id) (λ t. record t { owner_id = none }) ts)
owner_stays id us [] h = tt
owner_stays id us (t ∷ ts) h = elim (Bool-cases (holds t.owner_id id)) [
  | inl e ↦ rw e (refl, owner_stays id us ts h.1)
  | inr e ↦ rw e (owner_known id us t.owner_id e h.0, owner_stays id us ts h.1)
]

module _ {db : Db} (v : IsConsistent db) where
  pub create_user-IsConsistent :
      (fails : Bool) (user : User) → IsConsistent (create_user fails user db).1
  unfolding create_user
  create_user-IsConsistent true user = v
  create_user-IsConsistent false user = elim (Bool-cases (any (conflicts user) db.users)) [
    | inl e ↦ rw e v
    | inr e ↦ rw e (users-IsConsistent v _ (λ id. any-append_left (λ u. u.id == id) db.users _))
  ]

  pub update_user-IsConsistent :
      (fails : Bool) (user : User) → IsConsistent (update_user fails user db).1
  unfolding update_user
  update_user-IsConsistent true user = v
  update_user-IsConsistent false user = elim (Bool-cases (user_exists user.id db)) [
    | inl e ↦
        elim (Bool-cases (any (λ u. not (u.id == user.id) && u.email == user.email) db.users)) [
          | inl o ↦ rw (e, o) v
          | inr o ↦
              rw (e, o)
                (users-IsConsistent v _ (λ id.
                  any-update_where (λ row. row.id == user.id) (λ u. u.id == id) (updated_user user)
                    db.users (λ row m q. q)))
        ]
    | inr e ↦ rw e v
  ]

  remove_user-IsConsistent :
      (id : String)
      → any (λ g. g.granted_by == id && not (g.user_id == id)) db.hook_grants ≡ false
      → IsConsistent (remove_user id db)
  unfolding remove_user
  remove_user-IsConsistent id granted = record {
    sessions_users = select-user_stays id (λ s. s.user_id) db.users db.sessions v.sessions_users;
    tokens_owners = owner_stays id db.users db.tokens v.tokens_owners;
    requests_tokens = All-map _ _ (λ r. still r.token_id) db.requests v.requests_tokens;
    grants_tokens =
        All-map _ _ (λ g. still g.token_id) _
          (All-select _ (λ g. not (g.user_id == id)) db.hook_grants v.grants_tokens);
    grants_users = select-user_stays id (λ g. g.user_id) db.users db.hook_grants v.grants_users;
    grants_granters = granter_stays id db.users db.hook_grants granted v.grants_granters;
    actions_tokens = All-map _ _ (λ a. still a.token_id) db.actions v.actions_tokens;
    logs_actions = v.logs_actions;
    logs_requests = v.logs_requests;
  }
    where
      still :
          (k : String)
          → token_exists k db ≡ true
          → any
              (λ t. t.uuid == k)
              (update_where
                (λ t. holds t.owner_id id)
                (λ t. record t { owner_id = none })
                db.tokens)
            ≡ true
      still k =
          any-update_where (λ t. holds t.owner_id id) (λ t. t.uuid == k)
            (λ t. record t { owner_id = none }) db.tokens (λ t m q. q)

  pub delete_user-IsConsistent :
      (fails : Bool) (id : String) → IsConsistent (delete_user fails id db).1
  unfolding delete_user
  delete_user-IsConsistent true id = v
  delete_user-IsConsistent false id = elim (Bool-cases (user_exists id db)) [
    | inl e ↦
        elim (Bool-cases (any (λ g. g.granted_by == id && not (g.user_id == id)) db.hook_grants)) [
          | inl o ↦ rw (e, o) v
          | inr o ↦ rw (e, o) (remove_user-IsConsistent id o)
        ]
    | inr e ↦ rw e v
  ]
