-- ===== src/Api/Settings.antt =====
-- internal/api/tokens.go: the settings that a hook may have, and that the validations ensure them.
use hookwatch.Api.Answer.{normalized_auth_mode}
use hookwatch.Api.Payload.{
  and_then, is_blank, is_mode, is_provider, validate_advanced_token_config,
  validate_and_normalize_token_access, validate_persistence, validate_signature,
  validate_token_config, validated,
}
use hookwatch.Authz.{is_admin, is_owner}
use hookwatch.Models.{Token, User}
use hookwatch.Prelude.{
  Bool, Bool-cases, Option, Result, String, arith, err, false, inl, inr, is_some, ltb_ℤ, nat_eq,
  not, ok, pos, refl, string_eq, sym, to_lower, trim_space, true, ◌&&◌, ◌==◌, ◌||◌, ◌∙◌, ◌≡◌, ◌≤ℤ◌,
}

-- The values that the capture handler and the middleware rely on are in their ranges.
abbrev pub InRange : Token → Type 0
InRange t =
    (pos 100 ≤ℤ t.default_status)
    × (t.default_status ≤ℤ pos 999)
    × ((trim_space t.default_content_type == "") ≡ false)
    × (pos 1 ≤ℤ t.max_requests)
    × (pos 0 ≤ℤ t.timeout)
    × (t.timeout ≤ℤ pos 10)

-- The modes are known ones.
abbrev pub HasModes : Token → Type 0
HasModes t = (is_mode t.receive_mode ≡ true) × (is_mode t.view_mode ≡ true)

-- The provider is a known one, and it has a secret unless it is empty.
abbrev pub HasProvider : Token → Type 0
HasProvider t =
    (is_provider t.signature_provider ≡ true)
    × ((t.signature_provider == "") ≡ is_blank t.signature_secret)

-- A hook has the hash of a secret if and only if it is private.
abbrev pub HasSecret : Token → Type 0
HasSecret t = is_some t.receive_secret_hash ≡ (t.receive_mode == "private")

abbrev pub IsValid : Token → Type 0
IsValid t = HasModes t × HasProvider t × InRange t

abbrev pub IsConfigured : Token → Type 0
IsConfigured t = IsValid t × HasSecret t

-- A result that is no error satisfies a predicate.
abbrev pub Gives {κ} : {E A : Type 0} → (A → Type κ) → Result E A → Type κ
Gives P (err e) = Unit
Gives P (ok a) = P a

and_then-Gives :
    (P Q : Token → Type 0) (r : Result String Token) (f : Token → Result String Token)
    → Gives P r
    → ((t : Token) → P t → Gives Q (f t))
    → Gives Q (and_then r f)
and_then-Gives P Q (err e) f h k = tt
and_then-Gives P Q (ok t) f h k = k t h

validate_and_normalize_token_access-HasModes :
    (token : Token) (auth_mode : String)
    → Gives HasModes (validate_and_normalize_token_access token auth_mode)
unfolding validate_and_normalize_token_access
validate_and_normalize_token_access-HasModes token auth_mode =
    elim (Bool-cases (is_mode token.receive_mode)) [
      | inr r ↦ rw r tt
      | inl r ↦ elim (Bool-cases (is_mode token.view_mode)) [
        | inr v ↦ rw (r, v) tt
        | inl v ↦ elim (Bool-cases (normalized_auth_mode auth_mode == "none")) [
          | inl n ↦ rw (r, v, n) (r, refl)
          | inr n ↦ rw (r, v, n) (r, v)
        ]
      ]
    ]

validate_signature-HasProvider :
    (token : Token)
    → HasModes token
    → Gives (λ t. HasModes t × HasProvider t) (validate_signature token)
unfolding validate_signature
validate_signature-HasProvider token h = elim (Bool-cases (is_provider token.signature_provider)) [
  | inr p ↦ rw p tt
  | inl p ↦ elim (Bool-cases (token.signature_provider == "")) [
    | inl e ↦ rw (p, e) (h, (p, e))
    | inr e ↦ elim (Bool-cases (is_blank token.signature_secret)) [
      | inl b ↦ rw (p, e, b) tt
      | inr b ↦ rw (p, e, b) (h, (p, e ∙ sym b))
    ]
  ]
]

validate_persistence-Gives :
    (P : Token → Type 0) (auth_mode : String) (user : Option User) (changed : Bool) (token : Token)
    → P token
    → Gives P (validate_persistence auth_mode user changed token)
unfolding validate_persistence
validate_persistence-Gives P auth_mode user changed token h =
    elim (Bool-cases (token.persistent && auth_mode == "none")) [
      | inl a ↦ rw a tt
      | inr a ↦ elim (Bool-cases (token.persistent && not (is_some token.owner_id))) [
        | inl b ↦ rw (a, b) tt
        | inr b ↦ elim (Bool-cases (changed && not (is_owner user token) && not (is_admin user))) [
          | inl c ↦ rw (a, b, c) tt
          | inr c ↦ rw (a, b, c) h
        ]
      ]
    ]

validate_token_config-InRange :
    (token : Token)
    → HasModes token × HasProvider token
    → Gives IsValid (validate_token_config token)
unfolding validate_token_config
validate_token_config-InRange token h =
    elim (Bool-cases
      (ltb_ℤ token.default_status (pos 100) || ltb_ℤ (pos 999) token.default_status)) [
        | inl a ↦ rw a tt
        | inr a ↦ elim (Bool-cases (trim_space token.default_content_type == "")) [
          | inl b ↦ rw (a, b) tt
          | inr b ↦ elim (Bool-cases (ltb_ℤ token.max_requests (pos 1))) [
            | inl c ↦ rw (a, b, c) tt
            | inr c ↦
                elim (Bool-cases (ltb_ℤ token.timeout (pos 0) || ltb_ℤ (pos 10) token.timeout)) [
                  | inl d ↦ rw (a, b, c, d) tt
                  | inr d ↦
                      rw (a, b, c, d)
                        (
                          h.0,
                          h.1,
                          (
                            ground (arith, a),
                            ground (arith, a),
                            b,
                            ground (arith, c),
                            ground (arith, d),
                            ground (arith, d),
                          ),
                        )
                ]
          ]
        ]
      ]

-- Whatever passes the three validations has valid settings.
pub validated-IsValid :
    (auth_mode : String) (user : Option User) (changed : Bool) (token : Token)
    → Gives IsValid (validated auth_mode user changed token)
unfolding validated validate_advanced_token_config
validated-IsValid auth_mode user changed token =
    and_then-Gives (λ t. HasModes t × HasProvider t) IsValid _ validate_token_config
      (and_then-Gives HasModes (λ t. HasModes t × HasProvider t)
        (validate_and_normalize_token_access token auth_mode) _
        (validate_and_normalize_token_access-HasModes token auth_mode)
        (λ t h.
          and_then-Gives (λ t. HasModes t × HasProvider t) (λ t. HasModes t × HasProvider t)
            (validate_signature
              (record t { signature_provider = to_lower (trim_space t.signature_provider) }))
            (validate_persistence auth_mode user changed)
            (validate_signature-HasProvider
              (record t { signature_provider = to_lower (trim_space t.signature_provider) }) h)
            (λ u k.
              validate_persistence-Gives (λ t. HasModes t × HasProvider t) auth_mode user changed u
                k)))
      validate_token_config-InRange
