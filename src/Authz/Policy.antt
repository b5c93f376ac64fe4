-- ===== src/Authz/Policy.antt =====
-- internal/authz/authz.go: what the checks decide, stated without their order.
use hookwatch.Authz.{
  HookAction, can_access_token, delete, edit, grant, grant_allows, is_view, unlisted,
  user_can_access, view,
}
use hookwatch.Models.{HookGrant, Token, User}
use hookwatch.Prelude.{
  Bool, Bool-cases, Option, String, ap, arith, eq_iff, eq_refl, false, find, holds, inl, inr,
  nat_eq, none, refl, some, string_eq, true, ◌&&◌, ◌==◌, ◌||◌, ◌≡◌, ◌⊎◌,
}
use hookwatch.Store.Db.{Db, or_not_found}
use hookwatch.Store.Grants.{get_hook_grant}

-- What the role of a grant covers.
abbrev pub Covers : String → HookAction → Type 0
Covers role view = (role ≡ "viewer") ⊎ (role ≡ "editor")
Covers role edit = role ≡ "editor"
Covers role _ = ⊥

-- The user holds a grant on the token that covers the action.
abbrev pub Granted : User → Token → HookAction → Db → Type 0
Granted user token action db =
    (g : HookGrant) × (find (λ h. h.token_id == token.uuid && h.user_id == user.id) db.hook_grants
      ≡ some g)
    × Covers g.role action

-- Access is open, public, or by the standing of the user.
abbrev pub Permits : String → Option User → Token → HookAction → Db → Type 0
Permits auth_mode user token action db =
    (auth_mode ≡ "none")
    ⊎ ((action ≡ view) × (token.view_mode ≡ "public"))
    ⊎ ((u : User) × (user ≡ some u)
        × ((u.global_role ≡ "admin") ⊎ (token.owner_id ≡ some u.id) ⊎ Granted u token action db))

holds-eq : (o : Option String) (s : String) → holds o s ≡ true → o ≡ some s
holds-eq none s h = cc
holds-eq (some t) s h = ap some ((eq_iff t s).0 h)

holds-some : (o : Option String) (s : String) → o ≡ some s → holds o s ≡ true
holds-some o s e = rw e (eq_refl s)

-- The switch on a grant that was found, or was not.
allows_found : HookAction → Option HookGrant → Bool
unfolding grant_allows
allows_found action o = grant_allows action (or_not_found o)

allows_found-Covers :
    (action : HookAction) (o : Option HookGrant)
    → allows_found action o ≡ true
    → (g : HookGrant) × (o ≡ some g) × Covers g.role action
unfolding allows_found
allows_found-Covers view none h = cc
allows_found-Covers _ none h = cc
allows_found-Covers view (some g) h =
    (g, refl, ground (arith, eq_iff g.role "viewer", eq_iff g.role "editor"))
allows_found-Covers edit (some g) h = (g, refl, (eq_iff g.role "editor").0 h)
allows_found-Covers delete (some g) h = cc
allows_found-Covers grant (some g) h = cc
allows_found-Covers unlisted (some g) h = cc

Covers-allows_found :
    (action : HookAction) (g : HookGrant)
    → Covers g.role action
    → allows_found action (some g) ≡ true
unfolding allows_found
Covers-allows_found view g h = ground (arith, eq_iff g.role "viewer", eq_iff g.role "editor")
Covers-allows_found edit g h = (eq_iff g.role "editor").1 h
Covers-allows_found delete g h = absurd h
Covers-allows_found grant g h = absurd h
Covers-allows_found unlisted g h = absurd h

Granted-sound :
    (fails : Bool) (user : User) (token : Token) (action : HookAction) (db : Db)
    → grant_allows action (get_hook_grant fails token.uuid user.id db) ≡ true
    → Granted user token action db
unfolding grant_allows get_hook_grant allows_found
Granted-sound true user token view db h = cc
Granted-sound true user token _ db h = cc
Granted-sound false user token action db h = allows_found-Covers action _ h

user_can_access-or :
    (fails : Bool) (user : User) (token : Token) (action : HookAction) (db : Db)
    → user_can_access fails user token action db ≡ (
        user.global_role == "admin"
        || holds token.owner_id user.id
        || grant_allows action (get_hook_grant fails token.uuid user.id db))
unfolding user_can_access
user_can_access-or fails user token action db = ground arith

-- Each of the ways in which a user has access is a branch of the check.
user_sound :
    (fails : Bool) (user : User) (token : Token) (action : HookAction) (db : Db)
    → user_can_access fails user token action db ≡ true
    → (user.global_role ≡ "admin") ⊎ (token.owner_id ≡ some user.id) ⊎ Granted user token action db
user_sound fails user token action db h = elim (Bool-cases (user.global_role == "admin")) [
  | inl e ↦ inl ((eq_iff user.global_role "admin").0 e)
  | inr e ↦ elim (Bool-cases (holds token.owner_id user.id)) [
    | inl o ↦ inr (inl (holds-eq token.owner_id user.id o))
    | inr o ↦ inr (
        inr (
          Granted-sound fails user token action db
            (ground (arith, user_can_access-or fails user token action db))))
  ]
]

user_complete :
    (user : User) (token : Token) (action : HookAction) (db : Db)
    → (user.global_role ≡ "admin") ⊎ (token.owner_id ≡ some user.id) ⊎ Granted user token action db
    → user_can_access false user token action db ≡ true
unfolding user_can_access get_hook_grant allows_found
user_complete user token action db (inl e) = ground (arith, (eq_iff user.global_role "admin").1 e)
user_complete user token action db (inr (inl e)) =
    ground (arith, holds-some token.owner_id user.id e)
user_complete user token action db (inr (inr (g, e, c))) =
    rw e (ground (arith, Covers-allows_found action g c))

is_view-eq : (action : HookAction) → is_view action ≡ true → action ≡ view
is_view-eq view h = refl
is_view-eq _ h = cc

known_user :
    (fails : Bool) (auth_mode : String) (user : User) (token : Token) (action : HookAction)
    (db : Db)
    → can_access_token fails auth_mode (some user) token action db ≡ (
        auth_mode == "none"
        || (is_view action && token.view_mode == "public")
        || user_can_access fails user token action db)
unfolding can_access_token
known_user fails auth_mode user token action db = ground arith

unknown_user :
    (fails : Bool) (auth_mode : String) (token : Token) (action : HookAction) (db : Db)
    → can_access_token fails auth_mode none token action db
      ≡ (auth_mode == "none" || (is_view action && token.view_mode == "public"))
unfolding can_access_token
unknown_user fails auth_mode token action db = ground arith

open_sound :
    (auth_mode : String) (user : Option User) (token : Token) (action : HookAction) (db : Db)
    → (auth_mode == "none" || (is_view action && token.view_mode == "public")) ≡ true
    → Permits auth_mode user token action db
open_sound auth_mode user token action db h = elim (Bool-cases (auth_mode == "none")) [
  | inl e ↦ inl ((eq_iff auth_mode "none").0 e)
  | inr e ↦
      inr
        (inl (is_view-eq action (ground arith), (eq_iff token.view_mode "public").0 (ground arith)))
]

-- Whatever the check lets through is permitted, also when the query for the grant fails.
pub can_access_token-Permits :
    (fails : Bool) (auth_mode : String) (user : Option User) (token : Token) (action : HookAction)
    (db : Db)
    → can_access_token fails auth_mode user token action db ≡ true
    → Permits auth_mode user token action db
can_access_token-Permits fails auth_mode none token action db h =
    open_sound auth_mode none token action db
      (rw (unknown_user fails auth_mode token action db) at h)
can_access_token-Permits fails auth_mode (some u) token action db h =
    elim (Bool-cases (auth_mode == "none" || (is_view action && token.view_mode == "public"))) [
      | inl e ↦ open_sound auth_mode (some u) token action db e
      | inr e ↦ inr (
          inr (
            u,
            refl,
            user_sound fails u token action db
                (ground (arith, known_user fails auth_mode u token action db)),
          ))
    ]

-- Everything that is permitted is let through when the query succeeds.
pub Permits-can_access_token :
    (auth_mode : String) (user : Option User) (token : Token) (action : HookAction) (db : Db)
    → Permits auth_mode user token action db
    → can_access_token false auth_mode user token action db ≡ true
unfolding can_access_token
Permits-can_access_token auth_mode user token action db (inl e) =
    ground (arith, (eq_iff auth_mode "none").1 e)
Permits-can_access_token auth_mode user token action db (inr (inl (v, p))) =
    rw v (ground (arith, (eq_iff token.view_mode "public").1 p))
Permits-can_access_token auth_mode user token action db (inr (inr (u, e, how))) =
    rw e (ground (arith, user_complete u token action db how))
