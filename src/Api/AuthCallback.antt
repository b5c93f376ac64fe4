-- ===== src/Api/AuthCallback.antt =====
-- internal/api/auth.go: where the callback of the identity provider sends the browser.
use Prim.Native.String as NativeString
use Prim.Native.Char.{Char, code}
use hookwatch.Api.AuthHandlers.{
  BrowserAnswer, Callback, called_back, error_page, handle_callback, oidc_error_code,
  oidc_error_location, redirects_to, state_matches,
}
use hookwatch.Auth.{AuthError, Login}
use hookwatch.Auth.Oidc.{OidcFaults, Provider, complete_oidc_auth}
use hookwatch.Auth.Redirect.{local_path, normalize_redirect_path, second_slash}
use hookwatch.Header.{Header}
use hookwatch.Models.{Session, User}
use hookwatch.Prelude.{
  Bool-cases, Result, String, arith, cut_prefix, differs, eq_iff, err, false, inl, inr, is_some,
  nat_eq, none, ok, refl, some, string_eq, trim_space, true, ◌==◌, ◌||◌, ◌≡◌, ◌≢◌,
}
use hookwatch.Store.Db.{Db}

-- A path of this server: one slash at the beginning, and no second one.
abbrev pub IsLocal : String → Type 0
IsLocal s = (is_some (cut_prefix "/" s) ≡ true) × (is_some (cut_prefix "//" s) ≡ false)

same_char : (c : Char) → (code c == b'/') ≡ true → (code "/" == code c) ≡ true
same_char c e = ground (arith, e)

other_char : (c : Char) → (code c == b'/') ≡ false → (code "/" == code c) ≡ false
other_char c e = ground (arith, e)

one_slash :
    (c : Char) (s : String)
    → (code c == b'/') ≡ true
    → second_slash s ≡ false
    → IsLocal (NativeString.◌∷◌ c s)
unfolding cut_prefix
one_slash c NativeString.[] e n = (rw (same_char c e) refl, rw (same_char c e) refl)
one_slash c (NativeString.◌∷◌ d s) e n =
    (rw (same_char c e) refl, rw (same_char c e, other_char d n) refl)

local_path-IsLocal : (s : String) → IsLocal (local_path s)
unfolding local_path cut_prefix
local_path-IsLocal NativeString.[] = (refl, refl)
local_path-IsLocal (NativeString.◌∷◌ c s) = elim (Bool-cases (code c == b'/')) [
  | inl e ↦ elim (Bool-cases (second_slash s)) [
    | inl t ↦ rw (e, t) (refl, refl)
    | inr t ↦ rw (e, t) (one_slash c s e t)
  ]
  | inr e ↦ rw e (refl, refl)
]

-- What the callback does: it answers with an error, or sends the browser to the page of the login or to a
-- local path. A session is only given where the state in the request is the one in the cookie, which
-- is not empty, and the login completed with that session.
abbrev pub SendsHome :
    Callback
    → (Header → String)
    → String
    → Result AuthError (User × Session)
    → BrowserAnswer
    → Type 0
SendsHome r encode path login (error_page e) =
    (trim_space r.state == "" || trim_space r.code == "") ≡ true
SendsHome r encode path login (redirects_to location none flow) =
    (code : String) × (location ≡ oidc_error_location encode path code)
SendsHome r encode path login (redirects_to location (some id) flow) =
    IsLocal location
    × (trim_space r.state ≡ trim_space r.state_cookie)
    × (trim_space r.state_cookie ≢ "")
    × ((user : User) × (session : Session) × (login ≡ ok (user, session)) × (session.id ≡ id))

called_back-SendsHome :
    (r : Callback) (encode : Header → String) (path : String)
    (login : Result AuthError (User × Session) × Db)
    → IsLocal path
    → state_matches r ≡ true
    → SendsHome r encode path login.0 (called_back encode path login).0
unfolding called_back state_matches
called_back-SendsHome r encode path (err e, db) local m = (oidc_error_code e, refl)
called_back-SendsHome r encode path (ok (user, session), db) local m = (
  local,
  (eq_iff (trim_space r.state) (trim_space r.state_cookie)).0 (ground (arith, m)),
  differs (trim_space r.state_cookie) "" (ground (arith, m)),
  (user, session, refl, refl),
)

-- Whatever the request and its cookies are, and whatever the provider answers: the callback sends the
-- browser to the page of the login, or, with the session of a login that completed, to a path that
-- begins with one slash and not with two; and then the state of the request is the one in the
-- cookie, and not empty. An error is only answered where a parameter is missing.
pub handle_callback-SendsHome :
    (encode : Header → String) (provider : Provider) (faults : OidcFaults) (issuer id : String)
    (login : Login) (base_url : String) (r : Callback) (db : Db)
    → SendsHome r encode
        (normalize_redirect_path (trim_space r.redirect_cookie))
        (complete_oidc_auth provider faults issuer id login base_url
          (trim_space r.code)
          (trim_space r.nonce_cookie)
          db).0
        (handle_callback encode provider faults issuer id login base_url r db).0
unfolding handle_callback normalize_redirect_path
handle_callback-SendsHome encode provider faults issuer id login base_url r db =
    elim (Bool-cases (trim_space r.state == "" || trim_space r.code == "")) [
      | inl e ↦ rw e e
      | inr e ↦ elim (Bool-cases (state_matches r)) [
        | inl m ↦
            rw (e, m)
              (called_back-SendsHome r encode _ _
                (local_path-IsLocal (trim_space (trim_space r.redirect_cookie))) m)
        | inr m ↦ rw (e, m) ("oidc_failed", refl)
      ]
    ]
