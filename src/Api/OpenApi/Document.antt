-- ===== src/Api/OpenApi/Document.antt =====
-- internal/api/requests_advanced.go getOpenAPISpec: which operations the document has.
use hookwatch.Api.Answer.{Answer, HookCall, Refusal, Server, refused, replied}
use hookwatch.Api.OpenApi.{
  Entries, OpenApiLibs, Operation, Paths, add_request, add_requests, build_operation, entry_at,
  handle_openapi, no_params, normalized_openapi_path, openapi_entered, openapi_streamed, put_entry,
  with_operation,
}
use hookwatch.Api.RequestHandlers.{EnterCall, enter}
use hookwatch.Authz.{view}
use hookwatch.Models.{Request, Token}
use hookwatch.Prelude.{
  Bool, Bool-cases, List, Option, Result, String, [], ap, arith, eq_iff, eq_refl, err, false, find,
  if◌then◌else◌, inl, inr, is_some, nat_eq, none, not, ok, or_else, pos, refl, select, some,
  string_eq, sym, to_lower, true, ◌&&◌, ◌==◌, ◌∙◌, ◌∷◌, ◌≡◌,
}
use hookwatch.Store.Db.{Db, driver, not_found, token_exists}
use hookwatch.Store.Listing.{sort_direction}
use hookwatch.Store.Order.{OrderBy}
use hookwatch.Store.RequestLists.{matches_request, stream_requests_by_token}
use mathlib.Core.Path.{fun_ext}

put_entry-entry_at :
    {A : Type 0} (key k : String) (value : A) (m : Entries A)
    → entry_at k (put_entry key value m) ≡ (if key == k then some value else entry_at k m)
put_entry-entry_at key k value [] = refl
put_entry-entry_at key k value ((j, a) ∷ m) = elim (Bool-cases (j == key)) [
  | inl e ↦ ground (arith, e, eq_iff j key, eq_iff j k, eq_iff key k)
  | inr e ↦
      rw e (
        ground (arith, e, eq_iff j key, eq_iff j k, eq_iff key k, put_entry-entry_at key k value m))
]

-- The operation of a path and a method.
abbrev pub operation_at : String → String → Paths → Option Operation
operation_at path method paths = entry_at method (or_else (entry_at path paths) [])

-- An operation that is there, or another one.
abbrev first_of : Option Operation → Option Operation → Option Operation
first_of none b = b
first_of (some a) b = some a

first_of-none : (a : Option Operation) → first_of a none ≡ a
first_of-none none = refl
first_of-none (some a) = refl

-- A method that has an operation keeps it; another one gets it.
after_operation :
    (o : Option Operation) (method m : String) (op : Operation) (items : Entries Operation)
    → entry_at method items ≡ o
    → entry_at m (if is_some o then items else put_entry method op items)
      ≡ first_of (entry_at m items) (if method == m then some op else none)
after_operation none method m op items e = elim (Bool-cases (method == m)) [
  | inl f ↦
      rw (put_entry-entry_at method m op items, sym ((eq_iff method m).0 f), e, eq_refl method) refl
  | inr f ↦ rw (put_entry-entry_at method m op items, f) (sym (first_of-none (entry_at m items)))
]
after_operation (some a) method m op items e = elim (Bool-cases (method == m)) [
  | inl f ↦ rw (sym ((eq_iff method m).0 f), e) refl
  | inr f ↦ rw f (sym (first_of-none (entry_at m items)))
]

with_operation-entry_at :
    (method m : String) (op : Operation) (items : Entries Operation)
    → entry_at m (with_operation method op items)
      ≡ first_of (entry_at m items) (if method == m then some op else none)
unfolding with_operation
with_operation-entry_at method m op items =
    after_operation (entry_at method items) method m op items refl

put_at :
    (p path lower method : String) (op : String → Operation) (paths : Paths)
    → operation_at path method
        (put_entry p (with_operation lower (op p) (or_else (entry_at p paths) [])) paths)
      ≡ first_of
          (operation_at path method paths)
          (if p == path && lower == method then some (op path) else none)
put_at p path lower method op paths = elim (Bool-cases (p == path)) [
  | inl e ↦
      rw
        (
          put_entry-entry_at p path (with_operation lower (op p) (or_else (entry_at p paths) []))
              paths,
          (eq_iff p path).0 e,
          eq_refl path,
        )
        (with_operation-entry_at lower method (op path) (or_else (entry_at path paths) []))
  | inr e ↦
      rw
        (
          put_entry-entry_at p path (with_operation lower (op p) (or_else (entry_at p paths) []))
              paths,
          e,
        )
        (sym (first_of-none (operation_at path method paths)))
]

-- Whether a request is one of the path and the method.
abbrev pub is_at : OpenApiLibs → String → String → String → Request → Bool
is_at lib token_id path method req =
    normalized_openapi_path lib token_id req.url == path && to_lower req.method == method

-- Its operation.
abbrev pub operation_of : OpenApiLibs → String → Option Request → Option Operation
operation_of lib path none = none
operation_of lib path (some req) = some (build_operation lib path req)

add_request-operation_at :
    (lib : OpenApiLibs) (token_id path method : String) (req : Request) (paths : Paths)
    → operation_at path method (add_request lib token_id req paths)
      ≡ first_of
          (operation_at path method paths)
          (if is_at lib token_id path method req then some (build_operation lib path req) else none)
unfolding add_request
add_request-operation_at lib token_id path method req paths =
    put_at (normalized_openapi_path lib token_id req.url) path (to_lower req.method) method
      (λ p. build_operation lib p req) paths

earlier :
    (lib : OpenApiLibs) (path : String) (r : Request) (a : Option Operation) (b : Bool)
    (o : Option Request)
    → first_of
        (first_of a (if b then some (build_operation lib path r) else none))
        (operation_of lib path o)
      ≡ first_of a (operation_of lib path (if b then some r else o))
earlier lib path r (some a) b o = refl
earlier lib path r none true o = refl
earlier lib path r none false o = refl

add_requests-first :
    (lib : OpenApiLibs) (token_id path method : String) (reqs : List Request) (paths : Paths)
    → operation_at path method (add_requests lib token_id reqs paths)
      ≡ first_of
          (operation_at path method paths)
          (operation_of lib path (find (is_at lib token_id path method) reqs))
unfolding add_requests
add_requests-first lib token_id path method [] paths =
    sym (first_of-none (operation_at path method paths))
add_requests-first lib token_id path method (r ∷ rs) paths =
    add_requests-first lib token_id path method rs (add_request lib token_id r paths)
    ∙ ap (λ o. first_of o (operation_of lib path (find (is_at lib token_id path method) rs)))
        (add_request-operation_at lib token_id path method r paths)
    ∙ earlier lib path r (operation_at path method paths) (is_at lib token_id path method r)
        (find (is_at lib token_id path method) rs)

-- The requests of a hook, newest first.
abbrev pub newest_first : OrderBy Request → String → Db → List Request
newest_first order token_id db =
    order.sort (λ r. sort_direction "desc" (pos r.created_at))
      (select (λ r. r.token_id == token_id) db.requests)

without_filters_at :
    (like : String → String → Bool) (token_id : String) (r : Request)
    → matches_request like token_id no_params r ≡ (r.token_id == token_id)
unfolding matches_request
without_filters_at like token_id r = ground arith

without_filters :
    (like : String → String → Bool) (token_id : String)
    → matches_request like token_id no_params ≡ (λ r. r.token_id == token_id)
without_filters like token_id = fun_ext (without_filters_at like token_id)

-- A document that is answered has this operation at the path and the method.
abbrev pub Describes :
    OpenApiLibs → OrderBy Request → String → String → String → Answer Paths × Db → Type 0
Describes lib order token_id path method (refused r, db) = Unit
Describes lib order token_id path method (replied status paths, db) =
    operation_at path method paths
    ≡ operation_of lib path (find (is_at lib token_id path method) (newest_first order token_id db))

streamed-Describes :
    (lib : OpenApiLibs) (order : OrderBy Request) (token_id path method : String) (db : Db)
    (fails exists : Bool)
    → Describes lib order token_id path method (
      openapi_streamed lib token_id (
          if fails
          then err driver
          else if not exists
          then err not_found
          else ok (newest_first order token_id db)),
      db,
    )
unfolding openapi_streamed
streamed-Describes lib order token_id path method db true exists = tt
streamed-Describes lib order token_id path method db false false = tt
streamed-Describes lib order token_id path method db false true =
    add_requests-first lib token_id path method (newest_first order token_id db) []

entered-Describes :
    (lib : OpenApiLibs) (order : OrderBy Request) (like : String → String → Bool) (call : EnterCall)
    (token_id path method : String) (entry : Result Refusal Token × Db)
    → Describes lib order token_id path method (openapi_entered lib order like call token_id entry)
unfolding openapi_entered stream_requests_by_token
entered-Describes lib order like call token_id path method (err r, db) = tt
entered-Describes lib order like call token_id path method (ok token, db) =
    rw (without_filters like token_id) (
      streamed-Describes lib order token_id path method db call.query_fails
        (token_exists token_id db))

-- The document that is answered has at every path and method just the operation that is built from the
-- newest request of the hook with this path and method, and none where there is no such request.
pub handle_openapi-Describes :
    (lib : OpenApiLibs) (order : OrderBy Request) (like : String → String → Bool) (server : Server)
    (hook_call : HookCall) (call : EnterCall) (db : Db) (path method : String)
    → Describes lib order hook_call.token_id path method
        (handle_openapi lib order like server hook_call call db)
unfolding handle_openapi
handle_openapi-Describes lib order like server hook_call call db path method =
    entered-Describes lib order like call hook_call.token_id path method
      (enter server hook_call call view db)
