-- ===== src/Api/ActionUpkeep/Steps.antt =====
-- internal/api/actions.go: each request keeps the configurations valid, and so does any sequence.
use hookwatch.Api.ActionConfig.{ActionLibs, validate_action_config, validate_action_type}
use hookwatch.Api.ActionHandlers.{
  ActionCall, CreateAction, UpdateAction, action_created, action_deleted, action_updated,
  create_action_opened, create_configured, create_ordered, delete_action_opened,
  handle_create_action, handle_delete_action, handle_reorder, handle_update_action, new_action,
  reorder_opened, reordered, set_config, set_type, update_action_opened, update_configured,
  update_found, validate_action, validate_typed, with_config, with_type,
}
use hookwatch.Api.ActionRuns.{IsRunnable}
use hookwatch.Api.ActionUpkeep.{
  ActionRequest, AllRunnable, create_action-AllRunnable, creates_action, delete_action-AllRunnable,
  deletes_action, reorder_actions-AllRunnable, reorders_actions, serve_action, serve_actions,
  sets_config, update_action-AllRunnable, updates_action,
}
use hookwatch.Api.Answer.{HookCall, Refusal, Server}
use hookwatch.Api.Settings.{Gives}
use hookwatch.Models.{Action, Token}
use hookwatch.Prelude.{
  All-find, Bool, List, Option, Option-cases, Result, Result-cases, String, [], all, arith, err,
  false, find, inl, inr, is_some, none, not, ok, or_else, refl, some, subst, sym, true, ℕ, ◌||◌,
  ◌∷◌, ◌≡◌,
}
use hookwatch.Store.Actions.{
  create_action, delete_action, get_action, is_action, next_action_sort_order, reorder_actions,
}
use hookwatch.Store.Db.{Db, StoreError, not_found}
use hookwatch.Store.Order.{Transaction}

action_created_db :
    (a : Action) (r : Result StoreError (Unit {0}) × Db) → (action_created a r).1 ≡ r.1
unfolding action_created
action_created_db a (err e, db) = refl
action_created_db a (ok u, db) = refl

action_updated_db :
    (a : Action) (r : Result StoreError (Unit {0}) × Db) → (action_updated a r).1 ≡ r.1
unfolding action_updated
action_updated_db a (err e, db) = refl
action_updated_db a (ok u, db) = refl

action_deleted_db : (r : Result StoreError (Unit {0}) × Db) → (action_deleted r).1 ≡ r.1
unfolding action_deleted
action_deleted_db (err not_found, db) = refl
action_deleted_db (err _, db) = refl
action_deleted_db (ok u, db) = refl

reordered_db : (r : Result StoreError (Unit {0}) × Db) → (reordered r).1 ≡ r.1
unfolding reordered
reordered_db (err e, db) = refl
reordered_db (ok u, db) = refl

module _ (lib : ActionLibs) where
  abbrev Runnable : Action → Type 0
  Runnable a = IsRunnable lib a.type a.config

  configured :
      (type config : String) (r : Result String (Unit {0}))
      → validate_action_type type ≡ ok tt
      → validate_action_config lib type config ≡ r
      → Gives (λ u. IsRunnable lib type config) r
  configured type config (err e) p q = tt
  configured type config (ok u) p q = (p, q)

  typed :
      (type config : String) (r : Result String (Unit {0}))
      → validate_action_type type ≡ r
      → Gives (λ u. IsRunnable lib type config) (validate_typed lib type config r)
  unfolding validate_typed
  typed type config (err e) p = tt
  typed type config (ok u) p =
      configured type config (validate_action_config lib type config) p refl

  validate_action-IsRunnable :
      (type config : String)
      → Gives (λ u. IsRunnable lib type config) (validate_action lib type config)
  unfolding validate_action
  validate_action-IsRunnable type config = typed type config (validate_action_type type) refl

  -- The type is known, and the action is valid if the type was not changed.
  abbrev Retyped : Option String → Action → Type 0
  Retyped type b = (validate_action_type b.type ≡ ok tt) × ((is_some type ≡ false) → Runnable b)

  with_type-Retyped :
      (t : String) (a : Action) (r : Result String (Unit {0}))
      → validate_action_type t ≡ r
      → Gives (Retyped (some t)) (with_type t a r)
  unfolding with_type
  with_type-Retyped t a (err e) p = tt
  with_type-Retyped t a (ok u) p = (p, λ e. ground (arith, e))

  set_type-Retyped :
      (type : Option String) (a : Action) → Runnable a → Gives (Retyped type) (set_type type a)
  unfolding set_type
  set_type-Retyped none a h = (h.0, λ e. h)
  set_type-Retyped (some t) a h = with_type-Retyped t a (validate_action_type t) refl

  with_config-Runnable :
      (c : String) (a : Action) (r : Result String (Unit {0}))
      → validate_action_type a.type ≡ ok tt
      → validate_action_config lib a.type c ≡ r
      → Gives Runnable (with_config c a r)
  unfolding with_config
  with_config-Runnable c a (err e) p q = tt
  with_config-Runnable c a (ok u) p q = (p, q)

  set_config-Runnable :
      (type config : Option String) (r : Result String Action)
      → (not (is_some type) || is_some config) ≡ true
      → Gives (Retyped type) r
      → Gives Runnable (set_config lib config r)
  unfolding set_config
  set_config-Runnable type config (err e) s h = tt
  set_config-Runnable type none (ok a) s h = h.1 (ground (arith, s))
  set_config-Runnable type (some c) (ok a) s h =
      with_config-Runnable c a (validate_action_config lib a.type c) h.0 refl

  create_configured-AllRunnable :
      (call : ActionCall) (token_id : String) (payload : CreateAction)
      (r : Result String (Unit {0})) (db : Db)
      → Gives (λ u. IsRunnable lib payload.type payload.config) r
      → AllRunnable lib db
      → AllRunnable lib (create_configured call token_id payload r db).1
  unfolding create_configured create_ordered new_action
  create_configured-AllRunnable call token_id payload (err e) db g h = h
  create_configured-AllRunnable call token_id payload (ok u) db g h =
      elim (Result-cases (next_action_sort_order call.query_fails token_id db)) [
        | inl (e, p) ↦ rw p h
        | inr (n, p) ↦ rw p (
            subst (AllRunnable lib)
              (sym (
                action_created_db _
                  (create_action call.write_fails (new_action call token_id payload n) db)))
              (create_action-AllRunnable lib call.write_fails (new_action call token_id payload n)
                db g h))
      ]

  create_opened-AllRunnable :
      (call : ActionCall) (token_id : String) (payload : Option CreateAction)
      (r : Result Refusal Token) (db : Db)
      → AllRunnable lib db
      → AllRunnable lib (create_action_opened lib call token_id payload r db).1
  unfolding create_action_opened
  create_opened-AllRunnable call token_id payload (err e) db h = h
  create_opened-AllRunnable call token_id none (ok t) db h = h
  create_opened-AllRunnable call token_id (some p) (ok t) db h =
      create_configured-AllRunnable call token_id p _ db
        (validate_action-IsRunnable p.type p.config) h

  update_configured-AllRunnable :
      (call : ActionCall) (payload : UpdateAction) (r : Result String Action) (db : Db)
      → Gives Runnable r
      → AllRunnable lib db
      → AllRunnable lib (update_configured call payload r db).1
  unfolding update_configured
  update_configured-AllRunnable call payload (err e) db g h = h
  update_configured-AllRunnable call payload (ok a) db g h =
      subst (AllRunnable lib) (sym (action_updated_db _ _)) (
        update_action-AllRunnable lib call.write_fails
          (record a { enabled = or_else payload.enabled a.enabled; updated_at = call.now }) db g h)

  update_found-AllRunnable :
      (call : ActionCall) (payload : UpdateAction) (r : Result StoreError Action) (db : Db)
      → (not (is_some payload.type) || is_some payload.config) ≡ true
      → Gives Runnable r
      → AllRunnable lib db
      → AllRunnable lib (update_found lib call (some payload) r db).1
  unfolding update_found
  update_found-AllRunnable call payload (err not_found) db s g h = h
  update_found-AllRunnable call payload (err _) db s g h = h
  update_found-AllRunnable call payload (ok a) db s g h =
      update_configured-AllRunnable call payload _ db
        (set_config-Runnable payload.type payload.config _ s (set_type-Retyped payload.type a g)) h

  get_action-Gives :
      (fails : Bool) (token_id id : String) (db : Db)
      → AllRunnable lib db
      → Gives Runnable (get_action fails token_id id db)
  unfolding get_action
  get_action-Gives true token_id id db h = tt
  get_action-Gives false token_id id db h =
      elim (Option-cases (find (is_action token_id id) db.actions)) [
        | inl e ↦ rw e tt
        | inr (a, e) ↦ rw e (All-find Runnable (is_action token_id id) a db.actions h e)
      ]

  undecoded :
      (call : ActionCall) (r : Result StoreError Action) (db : Db)
      → AllRunnable lib db
      → AllRunnable lib (update_found lib call none r db).1
  unfolding update_found
  undecoded call (err not_found) db h = h
  undecoded call (err _) db h = h
  undecoded call (ok a) db h = h

  update_opened-AllRunnable :
      (call : ActionCall) (token_id id : String) (payload : Option UpdateAction)
      (r : Result Refusal Token) (db : Db)
      → ((p : UpdateAction) → payload ≡ some p → (not (is_some p.type) || is_some p.config) ≡ true)
      → AllRunnable lib db
      → AllRunnable lib (update_action_opened lib call token_id id payload r db).1
  unfolding update_action_opened
  update_opened-AllRunnable call token_id id payload (err e) db s h = h
  update_opened-AllRunnable call token_id id none (ok t) db s h =
      undecoded call (get_action call.query_fails token_id id db) db h
  update_opened-AllRunnable call token_id id (some p) (ok t) db s h =
      update_found-AllRunnable call p _ db (s p refl)
        (get_action-Gives call.query_fails token_id id db h) h

  delete_opened-AllRunnable :
      (fails : Bool) (token_id id : String) (r : Result Refusal Token) (db : Db)
      → AllRunnable lib db
      → AllRunnable lib (delete_action_opened fails token_id id r db).1
  unfolding delete_action_opened
  delete_opened-AllRunnable fails token_id id (err e) db h = h
  delete_opened-AllRunnable fails token_id id (ok t) db h =
      subst (AllRunnable lib) (sym (action_deleted_db (delete_action fails token_id id db)))
        (delete_action-AllRunnable lib fails token_id id db h)

  reorder_opened-AllRunnable :
      (tx : Transaction) (begin_fails : Bool) (fails : ℕ → Bool) (token_id : String)
      (ids : Option (List String)) (r : Result Refusal Token) (db : Db)
      → AllRunnable lib db
      → AllRunnable lib (reorder_opened tx begin_fails fails token_id ids r db).1
  unfolding reorder_opened
  reorder_opened-AllRunnable tx begin_fails fails token_id ids (err e) db h = h
  reorder_opened-AllRunnable tx begin_fails fails token_id none (ok t) db h = h
  reorder_opened-AllRunnable tx begin_fails fails token_id (some []) (ok t) db h = h
  reorder_opened-AllRunnable tx begin_fails fails token_id (some (id ∷ ids)) (ok t) db h =
      subst (AllRunnable lib)
        (sym (reordered_db (reorder_actions tx begin_fails fails token_id (id ∷ ids) db)))
        (reorder_actions-AllRunnable lib tx begin_fails fails token_id (id ∷ ids) db h)

module _ (lib : ActionLibs) (server : Server) (tx : Transaction) where
  from_payload :
      (hook_call : HookCall) (call : ActionCall) (id : String) (payload : Option UpdateAction)
      (p : UpdateAction)
      → sets_config (updates_action hook_call call id payload) ≡ true
      → payload ≡ some p
      → (not (is_some p.type) || is_some p.config) ≡ true
  from_payload hook_call call id payload p s e = rw e at s

  serve_action-AllRunnable :
      (r : ActionRequest) (db : Db)
      → sets_config r ≡ true
      → AllRunnable lib db
      → AllRunnable lib (serve_action lib server tx r db)
  unfolding handle_create_action handle_update_action handle_delete_action handle_reorder
  serve_action-AllRunnable (creates_action hook_call call payload) db s h =
      create_opened-AllRunnable lib call hook_call.token_id payload _ db h
  serve_action-AllRunnable (updates_action hook_call call id payload) db s h =
      update_opened-AllRunnable lib call hook_call.token_id id payload _ db
        (λ p e. from_payload hook_call call id payload p s e) h
  serve_action-AllRunnable (deletes_action hook_call call id) db s h =
      delete_opened-AllRunnable lib call.write_fails hook_call.token_id id _ db h
  serve_action-AllRunnable (reorders_actions hook_call begin_fails fails ids) db s h =
      reorder_opened-AllRunnable lib tx begin_fails fails hook_call.token_id ids _ db h

  -- Any sequence of requests that create, change, delete and reorder actions, with any failures of the
  -- store, keeps every stored action valid, that is, of a known type and with a configuration that is
  -- valid for it, if each change of a type comes with a configuration.
  pub serve_actions-AllRunnable :
      (rs : List ActionRequest) (db : Db)
      → all sets_config rs ≡ true
      → AllRunnable lib db
      → AllRunnable lib (serve_actions lib server tx rs db)
  serve_actions-AllRunnable [] db s h = h
  serve_actions-AllRunnable (r ∷ rs) db s h =
      serve_actions-AllRunnable rs _ (ground (arith, s))
        (serve_action-AllRunnable r db (ground (arith, s)) h)
