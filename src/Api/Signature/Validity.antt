-- ===== src/Api/Signature/Validity.antt =====
-- internal/api/signature.go: which requests are marked as valid.
use Prim.Native.String as NativeString
use Prim.Native.Char.{code}
use hookwatch.Api.Signature.{
  StripeParts, add_part, evaluate_request_signature, evaluate_with, stripe_parts, valid,
  validate_github_signature, validate_stripe_signature,
}
use hookwatch.Header.{Header, get}
use hookwatch.Hub.Delivery.{received}
use hookwatch.Models.{Token}
use hookwatch.Prelude.{
  Bool-cases, List, Option, Option-cases, String, [], any, ap, arith, cut, cut_prefix, differs,
  eq_iff, if◌then◌else◌, inl, inr, length, nat_eq, none, refl, some, split, string_eq, sym,
  to_lower, trim_space, true, ◌++◌, ◌==◌, ◌||◌, ◌∙◌, ◌∷◌, ◌≡◌, ◌≢◌, ◌⊎◌,
}
use mathlib.Core.List.{append-nil, append_assoc}
use text.Mathlib.TextEquality.{Char-path}
use text.Mathlib.TextLemmas.{cons-append, nil-append}

-- The values of one key in the parts of a header.
unfoldable pub add_value : String → Option (String × String) → List String → List String
add_value key none rest = rest
add_value key (some (k, v)) rest = if k == key then v ∷ rest else rest

unfoldable pub values_of : String → List String → List String
unfolding add_value
values_of key [] = []
values_of key (part ∷ more) = add_value key (cut b'=' (trim_space part)) (values_of key more)

unfoldable pub last_of : String → List String → String
last_of s [] = s
last_of s (t ∷ ts) = last_of t ts

-- The parts that the loop ends with, from the values of the keys `t` and `v1`.
abbrev gathered : StripeParts → List String → List String → StripeParts
gathered acc ts vs = record {
  timestamp = last_of acc.timestamp ts;
  signatures = acc.signatures ++ vs;
}

gathered-add_part :
    (acc : StripeParts) (o : Option (String × String)) (ts vs : List String)
    → gathered (add_part o acc) ts vs ≡ gathered acc (add_value "t" o ts) (add_value "v1" o vs)
unfolding add_part add_value last_of
gathered-add_part acc none ts vs = refl
gathered-add_part acc (some (k, v)) ts vs = elim (Bool-cases (k == "t")) [
  | inl e ↦ rw ((eq_iff k "t").0 e) refl
  | inr e ↦ elim (Bool-cases (k == "v1")) [
    | inl f ↦
        rw (e, f)
          (ap (λ ss. record { timestamp = last_of acc.timestamp ts; signatures = ss })
            (append_assoc acc.signatures (v ∷ []) vs))
    | inr f ↦ rw (e, f) refl
  ]
]

-- The loop collects the last `t` and every `v1`.
stripe_parts-values_of :
    (parts : List String) (acc : StripeParts)
    → stripe_parts parts acc ≡ gathered acc (values_of "t" parts) (values_of "v1" parts)
unfolding stripe_parts values_of last_of
stripe_parts-values_of [] acc =
    ap (λ ss. record { timestamp = acc.timestamp; signatures = ss })
      (sym (append-nil acc.signatures))
stripe_parts-values_of (part ∷ more) acc =
    let o = cut b'=' (trim_space part) in
    stripe_parts-values_of more (add_part o acc)
    ∙ gathered-add_part acc o (values_of "t" more) (values_of "v1" more)

-- GitHub signs the body; its header is `sha256=` and the signature, in any case of letters.
unfoldable pub IsGithub : (String → String → String) → Header → String → String → Type 0
IsGithub hmac headers body secret =
    (received : String) × (trim_space (get "X-Hub-Signature-256" headers)
      ≡ NativeString.◌++◌ "sha256=" received)
    × (to_lower received ≡ hmac secret body)

-- The values that a Stripe header gives a key.
abbrev pub stripe_values : String → Header → List String
stripe_values key headers = values_of key (split b',' (trim_space (get "Stripe-Signature" headers)))

-- Stripe signs the last `t` of its header and the body; one of the `v1` is the signature.
unfoldable pub IsStripe : (String → String → String) → Header → String → String → Type 0
IsStripe hmac headers body secret =
    let time = last_of "" (stripe_values "t" headers) in
    (time ≢ "")
    × (any
          (λ candidate.
            to_lower candidate == hmac secret (NativeString.◌++◌ time (NativeString.◌++◌ "." body)))
          (stripe_values "v1" headers)
        ≡ true)

unfoldable pub IsSigned : (String → String → String) → String → Header → String → String → Type 0
IsSigned hmac provider headers body secret =
    ((provider ≡ "github") × IsGithub hmac headers body secret)
    ⊎ ((provider ≡ "stripe") × IsStripe hmac headers body secret)

cut_prefix-append : (p s r : String) → cut_prefix p s ≡ some r → s ≡ NativeString.◌++◌ p r
unfolding cut_prefix
cut_prefix-append String.[] s r e = ground (arith, e) ∙ sym (nil-append r)
cut_prefix-append (String.◌∷◌ c p) String.[] r e = ground (arith, e)
cut_prefix-append (String.◌∷◌ c p) (String.◌∷◌ d s) r e = elim (Bool-cases (code c == code d)) [
  | inl m ↦ rw (Char-path c d (ground (arith, m))) (
      ap (λ t. NativeString.◌∷◌ d t) (cut_prefix-append p s r (ground (arith, e, m)))
      ∙ sym (cons-append d p r))
  | inr m ↦ ground (arith, e, m)
]

IsGithub-sound :
    (hmac : String → String → String) (p : String) (headers : Header) (body secret : String)
    → ((validate_github_signature hmac p headers body secret).status == "valid") ≡ true
    → IsGithub hmac headers body secret
unfolding validate_github_signature IsGithub
IsGithub-sound hmac p headers body secret =
    let value = trim_space (get "X-Hub-Signature-256" headers) in
    elim (Bool-cases (value == "")) [
      | inl z ↦ rw z (λ h. ground (arith, h))
      | inr z ↦ elim (Option-cases (cut_prefix "sha256=" value)) [
        | inl n ↦ rw (z, n) (λ h. ground (arith, h))
        | inr (received, n) ↦ elim (Bool-cases (to_lower received == hmac secret body)) [
          | inl m ↦ λ h. (
            received,
            cut_prefix-append "sha256=" value received n,
            (eq_iff (to_lower received) (hmac secret body)).0 m,
          )
          | inr m ↦ rw (z, n, m) (λ h. ground (arith, h))
        ]
      ]
    ]

IsStripe-sound :
    (hmac : String → String → String) (p : String) (headers : Header) (body secret : String)
    → ((validate_stripe_signature hmac p headers body secret).status == "valid") ≡ true
    → IsStripe hmac headers body secret
unfolding validate_stripe_signature IsStripe
IsStripe-sound hmac p headers body secret =
    let value = trim_space (get "Stripe-Signature" headers) in
    let time = last_of "" (stripe_values "t" headers) in
    rw (stripe_parts-values_of (split b',' value) (record { timestamp = ""; signatures = [] }))
      (elim (Bool-cases (value == "")) [
        | inl z ↦ rw z (λ h. ground (arith, h))
        | inr z ↦ elim (Bool-cases (time == "" || length (stripe_values "v1" headers) == 0)) [
          | inl f ↦ rw (z, f) (λ h. ground (arith, h))
          | inr f ↦
              elim (Bool-cases (
                any
                  (λ candidate.
                    to_lower candidate
                    == hmac secret (NativeString.◌++◌ time (NativeString.◌++◌ "." body)))
                  (stripe_values "v1" headers))) [
                    | inl c ↦ λ h. (differs time "" (ground (arith, f)), c)
                    | inr c ↦ rw (z, f, c) (λ h. ground (arith, h))
                  ]
        ]
      ])

signed :
    (hmac : String → String → String) (p : String) (headers : Header) (body : String)
    → (o : Option String) → ((evaluate_with hmac p headers body o).status == "valid") ≡ true
    → (secret : String) × (o ≡ some secret)
      × (trim_space secret ≢ "")
      × IsSigned hmac p headers body secret
unfolding evaluate_with IsSigned
signed hmac p headers body none = λ h. ground (arith, h)
signed hmac p headers body (some secret) = elim (Bool-cases (p == "" || trim_space secret == "")) [
  | inl z ↦ rw z (λ h. ground (arith, h))
  | inr z ↦ elim (Bool-cases (p == "github")) [
    | inl g ↦
        rw (z, g)
          (λ h. (
            secret,
            refl,
            differs (trim_space secret) "" (ground (arith, z)),
            inl ((eq_iff p "github").0 g, IsGithub-sound hmac p headers body secret h),
          ))
    | inr g ↦ elim (Bool-cases (p == "stripe")) [
      | inl t ↦
          rw (z, g, t)
            (λ h. (
              secret,
              refl,
              differs (trim_space secret) "" (ground (arith, z)),
              inr ((eq_iff p "stripe").0 t, IsStripe-sound hmac p headers body secret h),
            ))
      | inr t ↦ rw (z, g, t) (λ h. ground (arith, h))
    ]
  ]
]

-- A request whose status is `valid` carries a signature of the provider that its hook names, and
-- the hook has a secret, which is not blank. (`hmac` is any function.)
pub evaluate_request_signature-IsSigned :
    (hmac : String → String → String) (hook : Token) (headers : Header) (body : String)
    → (evaluate_request_signature hmac hook headers body).status ≡ "valid"
    → (secret : String) × (hook.signature_secret ≡ some secret)
      × (trim_space secret ≢ "")
      × IsSigned hmac (to_lower (trim_space hook.signature_provider)) headers body secret
unfolding evaluate_request_signature
evaluate_request_signature-IsSigned hmac hook headers body valid =
    signed hmac (to_lower (trim_space hook.signature_provider)) headers body hook.signature_secret
      ((eq_iff (evaluate_request_signature hmac hook headers body).status "valid").1 valid)
