-- ===== src/Api/Secret/Lifecycle.antt =====
-- internal/api/secret.go: which secrets a hook accepts after a change, and what a capture stores.
use hookwatch.Api.Secret.{
  Caller, SecretSource, basic_secret, clear_secret, extract_receive_secret, from_header, from_query,
  is_basic, receive_mode_private, reconcile_receive_secret, rotate_receive_secret,
  sanitized_capture_headers, set_secret, validate_receive_secret,
}
use hookwatch.Header.{Header, del, get, get-del, get-del_other}
use hookwatch.Models.{Token}
use hookwatch.Prelude.{
  Bool, Bool-cases, Option, Result, String, ap, arith, eq_iff, err, false, if◌then◌else◌, inl, inr,
  nat_eq, none, not, ok, refl, some, string_eq, trim_space, true, ◌&&◌, ◌==◌, ◌∙◌, ◌≡◌,
}

abbrev pub is_private : Token → Bool
is_private hook = hook.receive_mode == receive_mode_private

-- The secrets that a hook must accept once `shown` is what its owner was shown last: that one, and
-- if none was shown those of before.
unfoldable pub accepts_after :
    (String → String) → Token → Result (Unit {0}) (Option String) → String → Bool
accepts_after hash before (ok (some secret)) provided =
    not (provided == "") && hash secret == hash provided
accepts_after hash before (ok none) provided = validate_receive_secret hash before provided
accepts_after hash before (err e) provided = validate_receive_secret hash before provided

-- After a reconciliation a hook accepts, if its mode is private, the secret that it returned and
-- what hashes alike, and if it returned none just what the hook accepted before; a hook that is
-- not private accepts nothing. This holds for each previous mode, and where no secret can be drawn.
pub reconcile_receive_secret-accepts :
    (hash : String → String) (generated : Option String) (hook : Token) (was_private : Bool)
    → (provided : String)
    → let result = reconcile_receive_secret hash generated hook was_private in
      validate_receive_secret hash result.1 provided
      ≡ (if is_private hook then accepts_after hash hook result.0 provided else false)
unfolding reconcile_receive_secret set_secret clear_secret accepts_after validate_receive_secret
reconcile_receive_secret-accepts hash none hook was_private provided = ground arith
reconcile_receive_secret-accepts hash (some secret) hook was_private provided = ground arith

-- After a rotation a private hook accepts the new secret and what hashes alike, so the old one no
-- longer, whatever it accepted before; another hook accepts nothing.
pub rotate_receive_secret-accepts :
    (hash : String → String) (secret : String) (hook : Token) (provided : String)
    → validate_receive_secret hash (rotate_receive_secret hash (some secret) hook).1 provided
      ≡ (is_private hook && not (provided == "") && hash secret == hash provided)
unfolding rotate_receive_secret set_secret clear_secret validate_receive_secret
rotate_receive_secret-accepts hash secret hook provided = ground arith

get-sanitized :
    (key : String) (h : Header) (source : SecretSource)
    → get key (
        if is_basic source
        then del "Authorization" (del "X-Hook-Secret" h)
        else del "X-Hook-Secret" h)
      ≡ (if key == "X-Hook-Secret"
          then ""
          else if key == "Authorization" && is_basic source
          then ""
          else get key h)
get-sanitized key h source = elim (Bool-cases (key == "X-Hook-Secret")) [
  | inl e ↦ elim (Bool-cases (is_basic source)) [
    | inl b ↦
        rw (e, b)
          (rw ((eq_iff key "X-Hook-Secret").0 e) (
            get-del_other "X-Hook-Secret" "Authorization" (del "X-Hook-Secret" h) refl
            ∙ get-del "X-Hook-Secret" h))
    | inr b ↦ rw (e, b) (rw ((eq_iff key "X-Hook-Secret").0 e) (get-del "X-Hook-Secret" h))
  ]
  | inr e ↦ elim (Bool-cases (is_basic source)) [
    | inl b ↦ elim (Bool-cases (key == "Authorization")) [
      | inl a ↦
          rw (e, b, a)
            (rw ((eq_iff key "Authorization").0 a)
              (get-del "Authorization" (del "X-Hook-Secret" h)))
      | inr a ↦
          rw (e, b, a)
            (get-del_other key "Authorization" (del "X-Hook-Secret" h) a
              ∙ get-del_other key "X-Hook-Secret" h e)
    ]
    | inr b ↦ rw (e, b) (get-del_other key "X-Hook-Secret" h e ∙ ground (arith, b))
  ]
]

abbrev is_blank : String → Bool
is_blank s = trim_space s == ""

abbrev is_given : Option String → Bool
is_given none = false
is_given (some password) = not (is_blank password)

-- The secret of a request is the password of basic authentication just where X-Hook-Secret and the
-- parameter `secret` are blank and the password is not.
abbrev pub is_by_password : Caller → Bool
is_by_password r =
    is_blank (get "X-Hook-Secret" r.header)
    && is_blank (get "secret" r.query)
    && is_given r.basic_password

by_password :
    (header_blank query_blank : Bool) (a b : String) (password : Option String)
    → is_basic
        (if not header_blank
          then (a, from_header)
          else if not query_blank
          then (b, from_query)
          else basic_secret password).1
      ≡ (header_blank && query_blank && is_given password)
by_password false query_blank a b password = refl
by_password true false a b password = refl
by_password true true a b none = refl
by_password true true a b (some password) = ground arith

extract_receive_secret-is_basic :
    (r : Caller) → is_basic (extract_receive_secret r).1 ≡ is_by_password r
unfolding extract_receive_secret
extract_receive_secret-is_basic r =
    by_password (is_blank (get "X-Hook-Secret" r.header)) (is_blank (get "secret" r.query)) _ _
      r.basic_password

-- Of the headers of a capture of a private hook, X-Hook-Secret is not stored; Authorization is not
-- stored if the secret is its password, that is, if X-Hook-Secret and the parameter `secret` are blank
-- and the password is not; every other header has the value that it came with.
pub get-sanitized_capture_headers :
    (r : Caller) (key : String)
    → get key (sanitized_capture_headers r.header (extract_receive_secret r).1 true) ≡ (
        if key == "X-Hook-Secret"
        then ""
        else if key == "Authorization" && is_by_password r
        then ""
        else get key r.header)
unfolding sanitized_capture_headers
get-sanitized_capture_headers r key =
    get-sanitized key r.header (extract_receive_secret r).1
    ∙ ap
        (λ by.
          if key == "X-Hook-Secret"
          then ""
          else if key == "Authorization" && by
          then ""
          else get key r.header)
        (extract_receive_secret-is_basic r)
