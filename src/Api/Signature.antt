-- ===== src/Api/Signature.antt =====
-- internal/api/signature.go: the verification of GitHub's and Stripe's signatures.
-- `hmac secret message` is the HMAC with SHA-256 in hexadecimal, a parameter.
pub mod Validity
use Prim.Native.String as NativeString
use hookwatch.Header.{Header, get}
use hookwatch.Hub.Delivery.{received}
use hookwatch.Models.{Token}
use hookwatch.Prelude.{
  List, Option, String, [], any, cut, cut_prefix, if◌then◌else◌, length, nat_eq, none, some, split,
  string_eq, to_lower, trim_space, ◌++◌, ◌==◌, ◌||◌, ◌∷◌,
}

-- The status, and the provider and the error where they are not nil.
pub record SignatureResult : Type 0 where
  pub status : String
  pub provider : Option String
  pub error : Option String

abbrev invalid : String → String → SignatureResult
invalid p message = record { status = "invalid"; provider = some p; error = some message }

abbrev valid : String → SignatureResult
valid p = record { status = "valid"; provider = some p; error = none }

unfoldable pub validate_github_signature :
    (String → String → String) → String → Header → String → String → SignatureResult
validate_github_signature hmac p headers body secret =
    let header_value = trim_space (get "X-Hub-Signature-256" headers) in
    if header_value == ""
    then invalid p "missing X-Hub-Signature-256 header"
    else elim (cut_prefix "sha256=" header_value) [
      | none ↦ invalid p "invalid GitHub signature format"
      | some received ↦
          if to_lower received == hmac secret body then valid p else invalid p "signature mismatch"
    ]

-- The last `t` of the parts of the header, and all their `v1`.
pub record StripeParts : Type 0 where
  pub timestamp : String
  pub signatures : List String

unfoldable pub add_part : Option (String × String) → StripeParts → StripeParts
add_part none parts = parts
add_part (some (key, value)) parts =
    if key == "t"
    then record parts { timestamp = value }
    else if key == "v1"
    then record parts { signatures = parts.signatures ++ value ∷ [] }
    else parts

unfoldable pub stripe_parts : List String → StripeParts → StripeParts
unfolding add_part
stripe_parts [] parts = parts
stripe_parts (part ∷ more) parts = stripe_parts more (add_part (cut b'=' (trim_space part)) parts)

unfoldable pub validate_stripe_signature :
    (String → String → String) → String → Header → String → String → SignatureResult
unfolding stripe_parts
validate_stripe_signature hmac p headers body secret =
    let header_value = trim_space (get "Stripe-Signature" headers) in
    let parts =
      stripe_parts (split b',' header_value) (record { timestamp = ""; signatures = [] }) in
    if header_value == ""
    then invalid p "missing Stripe-Signature header"
    else if parts.timestamp == "" || length parts.signatures == 0
    then invalid p "invalid Stripe signature format"
    else if any
        (λ candidate.
          to_lower candidate
          == hmac secret (NativeString.◌++◌ parts.timestamp (NativeString.◌++◌ "." body)))
        parts.signatures
    then valid p
    else invalid p "signature mismatch"

unfoldable pub evaluate_with :
    (String → String → String) → String → Header → String → Option String → SignatureResult
unfolding validate_github_signature validate_stripe_signature
evaluate_with hmac p headers body none = record {
  status = "unknown";
  provider = none;
  error = none;
}
evaluate_with hmac p headers body (some secret) =
    if p == "" || trim_space secret == ""
    then record { status = "unknown"; provider = none; error = none }
    else if p == "github"
    then validate_github_signature hmac p headers body secret
    else if p == "stripe"
    then validate_stripe_signature hmac p headers body secret
    else invalid p "unsupported signature provider"

unfoldable pub evaluate_request_signature :
    (String → String → String) → Token → Header → String → SignatureResult
unfolding evaluate_with
evaluate_request_signature hmac token headers body =
    evaluate_with hmac (to_lower (trim_space token.signature_provider)) headers body
      token.signature_secret
