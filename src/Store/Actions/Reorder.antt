-- ===== src/Store/Actions/Reorder.antt =====
-- internal/store/actions.go, ReorderActions: the order that it writes, and what stays of it when an
-- identifier has no action.
use hookwatch.Models.{Action}
use hookwatch.Prelude.{
  Bool, Bool-cases, List, Option, String, [], all, any, ap, arith, eq_iff, err, false,
  if◌then◌else◌, inl, inr, map, nat_eq, none, ok, pos, refl, some, string_eq, true, ℕ, ◌++◌, ◌+◌,
  ◌==◌, ◌||◌, ◌∙◌, ◌∷◌, ◌≡◌,
}
use hookwatch.Store.Actions.{
  action_missing, finished, is_action, reorder_actions, reorder_loop, set_order,
}
use hookwatch.Store.Db.{Db, missing_action}
use hookwatch.Store.Order.{Transaction}

-- The last position of an identifier in the request, counting from `i`.
abbrev pub position : ℕ → List String → String → Option ℕ
position i [] id = none
position i (x ∷ xs) id =
    let later = position (i + 1) xs id in
    elim later [ some j ↦ some j | none ↦ if x == id then some i else none ]

abbrev pub placed : Option ℕ → Action → Action
placed none a = a
placed (some i) a = record a { sort_order = pos i }

-- An action of the token gets the position of its identifier; any other stays as it is.
unfoldable pub place : String → ℕ → List String → Action → Action
place token_id i ids a = if a.token_id == token_id then placed (position i ids a.uuid) a else a

-- Every identifier names an action of the token.
abbrev pub all_known : String → List String → List Action → Bool
all_known token_id ids actions = all (λ id. any (is_action token_id id) actions) ids

set_order-known :
    (i : ℕ) (token_id id other : String) (actions : List Action)
    → any (is_action token_id other) (set_order i token_id id actions)
      ≡ any (is_action token_id other) actions
unfolding set_order
set_order-known i token_id id other [] = refl
set_order-known i token_id id other (a ∷ actions) = elim (Bool-cases (is_action token_id id a)) [
  | inl e ↦
      rw e (ap (◌||◌ (is_action token_id other a)) (set_order-known i token_id id other actions))
  | inr e ↦
      rw e (ap (◌||◌ (is_action token_id other a)) (set_order-known i token_id id other actions))
]

set_order-all_known :
    (i : ℕ) (token_id id : String) (ids : List String) (actions : List Action)
    → all_known token_id ids (set_order i token_id id actions) ≡ all_known token_id ids actions
set_order-all_known i token_id id [] actions = refl
set_order-all_known i token_id id (x ∷ xs) actions =
    rw (set_order-known i token_id id x actions, set_order-all_known i token_id id xs actions)

place-none :
    (token_id : String) (i : ℕ) (actions : List Action)
    → map (place token_id i []) actions ≡ actions
unfolding place
place-none token_id i [] = refl
place-none token_id i (a ∷ actions) = ground (arith, place-none token_id i actions)

place-once :
    (token_id : String) (i : ℕ) (id : String) (ids : List String) (a : Action)
    → place token_id
        (i + 1)
        ids
        (if is_action token_id id a then record a { sort_order = pos i } else a)
      ≡ place token_id i (id ∷ ids) a
unfolding place
place-once token_id i id ids a = ground (arith, eq_iff a.uuid id, eq_iff id a.uuid)

place-set_order :
    (token_id : String) (i : ℕ) (id : String) (ids : List String) (actions : List Action)
    → map (place token_id (i + 1) ids) (set_order i token_id id actions)
      ≡ map (place token_id i (id ∷ ids)) actions
unfolding set_order
place-set_order token_id i id ids [] = refl
place-set_order token_id i id ids (a ∷ actions) =
    cc (place-once token_id i id ids a, place-set_order token_id i id ids actions)

module _ (fails : ℕ → Bool) (sound : (i : ℕ) → fails i ≡ false) (token_id : String) where
  loop_all :
      (i : ℕ) (ids : List String) (actions : List Action)
      → all_known token_id ids actions ≡ true
      → reorder_loop fails i token_id ids actions ≡ (finished, map (place token_id i ids) actions)
  unfolding reorder_loop
  loop_all i [] actions h = rw (place-none token_id i actions)
  loop_all i (id ∷ ids) actions h =
      let here : any (is_action token_id id) actions ≡ true = ground arith in
      let later : all_known token_id ids (set_order i token_id id actions) ≡ true =
        rw (set_order-all_known i token_id id ids actions) (ground arith) in
      rw (sound i, here)
        (loop_all (i + 1) ids (set_order i token_id id actions) later
          ∙ ap (λ as'. (finished, as')) (place-set_order token_id i id ids actions))

  loop_missing :
      (i : ℕ) (ids : List String) (id : String) (rest : List String) (actions : List Action)
      → all_known token_id ids actions ≡ true
      → any (is_action token_id id) actions ≡ false
      → reorder_loop fails i token_id (ids ++ id ∷ rest) actions
        ≡ (action_missing, map (place token_id i ids) actions)
  unfolding reorder_loop
  loop_missing i [] id rest actions h n = rw (sound i, n, place-none token_id i actions)
  loop_missing i (x ∷ ids) id rest actions h n =
      let here : any (is_action token_id x) actions ≡ true = ground arith in
      let later : all_known token_id ids (set_order i token_id x actions) ≡ true =
        rw (set_order-all_known i token_id x ids actions) (ground arith) in
      let gone : any (is_action token_id id) (set_order i token_id x actions) ≡ false =
        rw (set_order-known i token_id x id actions) n in
      rw (sound i, here)
        (loop_missing (i + 1) ids id rest (set_order i token_id x actions) later gone
          ∙ ap (λ as'. (action_missing, as')) (place-set_order token_id i x ids actions))

  module _ (tx : Transaction) (db : Db) (ids : List String)
      (known : all_known token_id ids db.actions ≡ true) where
    -- If every identifier names an action of the token and no statement fails, each of these actions
    -- gets the last position of its identifier as its sort order, and nothing else changes.
    pub reorder_actions-place :
        reorder_actions tx false fails token_id ids db
        ≡ (ok tt, record db { actions = map (place token_id 0 ids) db.actions })
    unfolding reorder_actions
    reorder_actions-place = rw (loop_all 0 ids db.actions known) (
        ap (λ d. (ok tt, d))
          (tx.commits db (record db { actions = map (place token_id 0 ids) db.actions })))

    -- If an identifier further on names no action of the token, the call returns an error, and yet
    -- the positions of all identifiers before it stay written.
    pub reorder_actions_partial :
        (id : String) (rest : List String)
        → any (is_action token_id id) db.actions ≡ false
        → reorder_actions tx false fails token_id (ids ++ id ∷ rest) db
          ≡ (err missing_action, record db { actions = map (place token_id 0 ids) db.actions })
    unfolding reorder_actions
    reorder_actions_partial id rest missing =
        rw (loop_missing 0 ids id rest db.actions known missing) (
          ap (λ d. (err missing_action, d))
            (tx.commits db (record db { actions = map (place token_id 0 ids) db.actions })))
