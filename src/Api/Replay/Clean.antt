-- ===== src/Api/Replay/Clean.antt =====
-- internal/api/requests_advanced.go: which headers a replay sends.
use hookwatch.Api.Replay.{
  ReplayLibs, ReplayPayload, ReplayValue, add, add_additional, add_all, apply_replay_headers,
  copy_header, copy_headers, is_replay_blocked_header, many_texts, no_text, one_text, replay_header,
  with_replay_type,
}
use hookwatch.Api.RequestHandlers.{request_content_type}
use hookwatch.Header.{Header, get, set}
use hookwatch.Models.{Request}
use hookwatch.Prelude.{
  All, Bool, Bool-cases, List, String, [], any, arith, eq_iff, false, if◌then◌else◌, inl, inr,
  nat_eq, not, or_else, refl, string_eq, to_lower, trim_space, true, ◌&&◌, ◌==◌, ◌∷◌, ◌≡◌,
}

-- The ten headers that belong to one connection.
abbrev connection_headers : List String
connection_headers =
    "connection" ∷ "content-length" ∷ "host" ∷ "keep-alive" ∷ "proxy-authenticate"
    ∷ "proxy-authorization" ∷ "te" ∷ "trailer" ∷ "transfer-encoding" ∷ "upgrade" ∷ []

-- A name in small letters and without spaces around it is none of the ten.
abbrev IsForwardable : String → Type 0
IsForwardable name =
    All (λ header. (to_lower (trim_space name) == header) ≡ false) connection_headers

abbrev pub IsClean : Header → Type 0
IsClean h = All (λ entry. IsForwardable entry.0) h

none_equal :
    (s : String) (names : List String)
    → any (λ name. name == s) names ≡ false
    → All (λ name. (s == name) ≡ false) names
none_equal s [] h = tt
none_equal s (name ∷ names) h =
    (ground (arith, h, eq_iff name s, eq_iff s name), none_equal s names (ground (arith, h)))

is_replay_blocked_header-IsForwardable :
    (name : String) → is_replay_blocked_header name ≡ false → IsForwardable name
unfolding is_replay_blocked_header
is_replay_blocked_header-IsForwardable name h =
    none_equal (to_lower (trim_space name)) connection_headers h

set-IsClean :
    (key value : String) (h : Header) → IsForwardable key → IsClean h → IsClean (set key value h)
unfolding set
set-IsClean key value [] k c = (k, tt)
set-IsClean key value ((n, vs) ∷ h) k c = elim (Bool-cases (n == key)) [
  | inl e ↦ rw e (c.0, c.1)
  | inr e ↦ rw e (c.0, set-IsClean key value h k c.1)
]

add-IsClean :
    (key value : String) (h : Header) → IsForwardable key → IsClean h → IsClean (add key value h)
unfolding add
add-IsClean key value [] k c = (k, tt)
add-IsClean key value ((n, vs) ∷ h) k c = elim (Bool-cases (n == key)) [
  | inl e ↦ rw e (c.0, c.1)
  | inr e ↦ rw e (c.0, add-IsClean key value h k c.1)
]

add_all-IsClean :
    (key : String) (vs : List String) (h : Header)
    → IsForwardable key
    → IsClean h
    → IsClean (add_all key vs h)
unfolding add_all
add_all-IsClean key [] h k c = c
add_all-IsClean key (v ∷ vs) h k c =
    add_all-IsClean key vs (add key v h) k (add-IsClean key v h k c)

content_type-IsForwardable : IsForwardable "Content-Type"
unfolding to_lower trim_space
content_type-IsForwardable =
    (refl, (refl, (refl, (refl, (refl, (refl, (refl, (refl, (refl, (refl, tt))))))))))

module _ (lib : ReplayLibs)
    (same_name : (key : String)
      → to_lower (trim_space (lib.codec.canonical key)) ≡ to_lower (trim_space key)) where
  canonical-IsForwardable :
      (key : String) → IsForwardable key → IsForwardable (lib.codec.canonical key)
  canonical-IsForwardable key f = rw (same_name key) f

  copy_header-IsClean :
      (key : String) (value : ReplayValue) (h : Header)
      → IsForwardable key
      → IsClean h
      → IsClean (copy_header lib key value h)
  unfolding copy_header
  copy_header-IsClean key (one_text s) h k c = set-IsClean _ s h (canonical-IsForwardable key k) c
  copy_header-IsClean key (many_texts ss) h k c =
      add_all-IsClean _ ss h (canonical-IsForwardable key k) c
  copy_header-IsClean key no_text h k c = c

  copy_headers-IsClean :
      (entries : List (String × ReplayValue)) (h : Header)
      → IsClean h
      → IsClean (copy_headers lib entries h)
  unfolding copy_headers
  copy_headers-IsClean [] h c = c
  copy_headers-IsClean ((key, value) ∷ rest) h c =
      elim (Bool-cases (is_replay_blocked_header key)) [
        | inl e ↦ rw e (copy_headers-IsClean rest h c)
        | inr e ↦ rw e (
            copy_headers-IsClean rest _
              (copy_header-IsClean key value h (is_replay_blocked_header-IsForwardable key e) c))
      ]

  with_replay_type-IsClean :
      (content_type : String) (h : Header) → IsClean h → IsClean (with_replay_type content_type h)
  unfolding with_replay_type to_lower trim_space
  with_replay_type-IsClean content_type h c =
      elim (Bool-cases (get "Content-Type" h == "" && not (content_type == ""))) [
        | inl e ↦ rw e (set-IsClean "Content-Type" content_type h content_type-IsForwardable c)
        | inr e ↦ rw e c
      ]

  add_additional-IsClean :
      (entries : List (String × String)) (h : Header)
      → All (λ entry. IsForwardable entry.0) entries
      → IsClean h
      → IsClean (add_additional lib entries h)
  unfolding add_additional
  add_additional-IsClean [] h a c = c
  add_additional-IsClean ((key, value) ∷ rest) h a c = elim (Bool-cases (trim_space key == "")) [
    | inl e ↦ rw e (add_additional-IsClean rest h a.1 c)
    | inr e ↦ rw e (
        add_additional-IsClean rest _ a.1
          (set-IsClean _ value h (canonical-IsForwardable key a.0) c))
  ]

  preserved :
      (b : Bool) (raw : String) → IsClean (if b then apply_replay_headers lib raw [] else [])
  unfolding apply_replay_headers
  preserved true raw =
      with_replay_type-IsClean (request_content_type lib.codec raw) _
        (copy_headers-IsClean (lib.stored_headers raw) [] tt)
  preserved false raw = tt

  -- A replay sends none of the ten headers connection, content-length, host, keep-alive,
  -- proxy-authenticate, proxy-authorization, te, trailer, transfer-encoding and upgrade, whatever was
  -- stored of the captured request, in large or small letters and with spaces around the name, if the
  -- caller adds none of them; the canonical form of a name differs in the case of its letters only.
  pub replay_header-IsClean :
      (payload : ReplayPayload) (req : Request)
      → All (λ entry. IsForwardable entry.0) payload.additional_headers
      → IsClean (replay_header lib payload req)
  unfolding replay_header
  replay_header-IsClean payload req a =
      with_replay_type-IsClean (request_content_type lib.codec req.headers) _ (
        add_additional-IsClean payload.additional_headers _ a
          (preserved (or_else payload.preserve_headers true) req.headers))
