-- ===== src/Tests/Samples.antt =====
-- A small database: an admin, an owner and an editor, one hook with two actions and a request.
use hookwatch.Models.{Action, HookGrant, Request, Token, User}
use hookwatch.Prelude.{Bool, String, [], false, none, pos, refl, some, true, ℕ, ◌∷◌}
use hookwatch.Store.Config.{Config, default_max_requests, default_token_ttl}
use hookwatch.Store.Db.{Db}
use hookwatch.Store.Order.{Transaction}

abbrev pub user_of : String → String → User
user_of id role = record {
  id = id;
  email = id;
  display_name = id;
  password_hash = none;
  oidc_provider = none;
  oidc_subject = none;
  global_role = role;
  created_at = 0;
  updated_at = 0;
}

abbrev pub ann : User
ann = user_of "ann" "user"

abbrev pub bob : User
bob = user_of "bob" "user"

abbrev pub root : User
root = user_of "root" "admin"

-- A private hook of ann's that expires at second 100.
abbrev pub hook : Token
hook = record {
  uuid = "hook";
  owner_id = some "ann";
  receive_mode = "public";
  view_mode = "private";
  persistent = false;
  receive_secret_hash = none;
  receive_secret_prefix = none;
  signature_provider = "";
  signature_secret = none;
  default_status = pos 200;
  default_content = "";
  default_content_type = "text/plain";
  max_requests = pos 2;
  timeout = pos 0;
  cors = false;
  rate_limit = pos 0;
  created_at = 50_000_000_000;
  updated_at = 50_000_000_000;
  expires_at = 100_000_000_000;
}

abbrev pub action_of : String → ℕ → Action
action_of id order = record {
  uuid = id;
  token_id = "hook";
  type = "delay";
  config = "{}";
  sort_order = pos order;
  enabled = true;
  created_at = 0;
  updated_at = 0;
}

abbrev pub request_of : String → Request
request_of id = record {
  uuid = id;
  token_id = "hook";
  ip = "10.0.0.1";
  hostname = "example";
  method = "POST";
  user_agent = "curl";
  content = "body";
  query = "";
  headers = "{}";
  form_data = "{}";
  url = "http://example/hook";
  size = 4;
  signature_status = "unknown";
  signature_provider = none;
  signature_error = none;
  created_at = 60_000_000_000;
}

-- Bob is an editor of the hook, by a grant of ann's.
abbrev pub bobs_grant : HookGrant
bobs_grant = record {
  id = "g";
  token_id = "hook";
  user_id = "bob";
  role = "editor";
  granted_by = "ann";
  created_at = 0;
}

abbrev pub sample_db : Db
sample_db = record {
  users = root ∷ ann ∷ bob ∷ [];
  sessions = [];
  tokens = hook ∷ [];
  requests = request_of "r1" ∷ [];
  hook_grants = bobs_grant ∷ [];
  actions = action_of "a" 0 ∷ action_of "b" 1 ∷ [];
  action_logs = [];
  rate_limits = [];
}

abbrev pub one_day : Config
one_day = record { token_ttl = default_token_ttl; max_requests = default_max_requests }

-- A transaction by its documented behaviour.
abbrev pub sqlite_end : Bool → Db → Db → Db
sqlite_end true before after = before
sqlite_end false before after = after

abbrev pub sqlite_transaction : Transaction
sqlite_transaction = record {
  end_fn = sqlite_end;
  commits = λ before after. refl;
  rolls_back = λ before after. refl;
}
