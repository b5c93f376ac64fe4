-- ===== src/Tests/AuthTests.antt =====
-- Registration, logins, sessions and the identity provider at a concrete input.
use Prim.Native.String as NativeString
use hookwatch.Api.AuthCallback.{SendsHome, handle_callback-SendsHome}
use hookwatch.Api.AuthHandlers.{Callback, handle_callback, redirects_to}
use hookwatch.Auth.{Login, open_session, with_user}
use hookwatch.Auth.Accounts.{Promised, register-Promised}
use hookwatch.Auth.Arrival.{arrive, arrive_lem, no_faults}
use hookwatch.Auth.Oidc.{
  Claims, OidcFaults, Provider, complete_oidc_auth, id_token_claims, normalize_oidc_issuer,
}
use hookwatch.Auth.Oidc.Identity.{Completed, complete_oidc_auth-Completed}
use hookwatch.Auth.Password.{Registration, first_role, password_user, register}
use hookwatch.Auth.Redirect.{normalize_redirect_path}
use hookwatch.Auth.Sessions.{SessionCall, opens, session_replies, spec_replies, sweeps, validates}
use hookwatch.Auth.Sessions.Refinement.{session_replies-spec_replies}
use hookwatch.Prelude.{
  Bool, List, Option, String, [], arith, byte_len, false, nat_eq, none, ok, refl, row_with, some,
  string_eq, trim_space, true, ◌==◌, ◌∷◌, ◌≡◌,
}
use hookwatch.Store.Db.{format_time}
use hookwatch.Store.Sessions.{create_session}
use hookwatch.Store.Users.{count_users, create_user, get_user_by_email, get_user_by_oidc, user_row}
use hookwatch.Tests.Samples.{sample_db}

abbrev sample_hash : String → Option String
sample_hash password = some (NativeString.◌++◌ "hash of " password)

abbrev sample_compare : String → String → Bool
sample_compare hash password = hash == NativeString.◌++◌ "hash of " password

abbrev eve : Registration
eve = record { email = "eve"; display_name = "Eve"; password = "long enough" }

abbrev eves_login : Login
eves_login = record {
  now = 60_000_000_000;
  session_id = "s1";
  ip = "10.0.0.1";
  user_agent = "curl";
}

registered_role :
    (register sample_hash true no_faults 60_000_000_000 "u1" eve sample_db).0
    ≡ ok (password_user 60_000_000_000 "u1" eve "hash of long enough" "user")
unfolding register get_user_by_email count_users create_user
registered_role = refl

register-Promised_example :
    Promised true eve sample_db
      (register sample_hash true no_faults 60_000_000_000 "u1" eve sample_db)
register-Promised_example =
    register-Promised sample_hash true no_faults 60_000_000_000 "u1" eve sample_db

arrive_example :
    arrive sample_hash sample_compare 60_000_000_000 "u1" eve eves_login 90_000_000_000 sample_db
    ≡ ok (user_row (password_user 60_000_000_000 "u1" eve "hash of long enough" "user"))
unfolding byte_len format_time first_role
arrive_example =
    arrive_lem sample_hash sample_compare 60_000_000_000 "u1" eve "hash of long enough" eves_login
      90_000_000_000 sample_db refl (omega arith) refl refl refl (omega arith)

abbrev session_calls : List SessionCall
session_calls =
    opens false eves_login "ann"
    ∷ opens false eves_login "bob"
    ∷ validates false false 90_000_000_000 "s1"
    ∷ sweeps false 900_000_000_000_000
    ∷ validates false false 90_000_000_000 "s1"
    ∷ []

session_replies-spec_replies_example :
    session_replies session_calls sample_db
    ≡ spec_replies session_calls sample_db (λ i. row_with (λ s. s.id) i sample_db.sessions)
session_replies-spec_replies_example = session_replies-spec_replies session_calls sample_db tt

abbrev sample_claims : Claims
sample_claims = record { subject = "42"; email = "eve"; name = ""; nonce = "n" }

abbrev sample_provider : Provider
sample_provider = record {
  exchange = λ base. λ code. some (some "raw");
  verify = λ raw. some (record { subject = "42"; claims = some sample_claims });
  auth_code_url = λ base. λ state. λ nonce. base;
}

abbrev no_oidc_faults : OidcFaults
no_oidc_faults = record {
  by_oidc = false;
  by_email = false;
  count = false;
  create = false;
  session = false;
}

complete_oidc_auth-Completed_example :
    Completed "issuer" "n"
      (id_token_claims sample_provider
        (sample_provider.exchange (normalize_oidc_issuer "http://hooks/") "code"))
      sample_db
      (complete_oidc_auth sample_provider no_oidc_faults "issuer" "u1" eves_login "http://hooks/"
        "code" "n" sample_db)
complete_oidc_auth-Completed_example =
    complete_oidc_auth-Completed sample_provider no_oidc_faults "issuer" "u1" eves_login
      "http://hooks/" "code" "n" sample_db

abbrev sample_callback : Callback
sample_callback = record {
  state = "abc";
  code = "code";
  state_cookie = "abc";
  nonce_cookie = "n";
  redirect_cookie = "//evil";
}

sent_home :
    (handle_callback
      (λ h. "e")
      sample_provider
      no_oidc_faults
      "issuer"
      "u1"
      eves_login
      "http://hooks"
      sample_callback
      sample_db).0
    ≡ redirects_to "/" (some "s1") none
unfolding handle_callback complete_oidc_auth trim_space get_user_by_oidc get_user_by_email
    count_users create_user with_user open_session create_session normalize_redirect_path
sent_home = refl

handle_callback-SendsHome_example :
    SendsHome sample_callback
      (λ h. "e")
      (normalize_redirect_path (trim_space "//evil"))
      (complete_oidc_auth sample_provider no_oidc_faults "issuer" "u1" eves_login "http://hooks"
        (trim_space "code")
        (trim_space "n")
        sample_db).0
      (handle_callback
        (λ h. "e")
        sample_provider
        no_oidc_faults
        "issuer"
        "u1"
        eves_login
        "http://hooks"
        sample_callback
        sample_db).0
handle_callback-SendsHome_example =
    handle_callback-SendsHome (λ h. "e") sample_provider no_oidc_faults "issuer" "u1" eves_login
      "http://hooks" sample_callback sample_db
