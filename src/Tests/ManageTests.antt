-- ===== src/Tests/ManageTests.antt =====
-- The handlers of hooks, actions and grants at a concrete input.
use hookwatch.Api.ActionConfig.{ActionLibs, validate_action_config, validate_action_type}
use hookwatch.Api.ActionHandlers.{ActionCall}
use hookwatch.Api.ActionRuns.{IsRunnable, RunsWell, validate_action_config-execute}
use hookwatch.Api.ActionUpkeep.{
  ActionRequest, AllRunnable, creates_action, reorders_actions, serve_actions, updates_action,
}
use hookwatch.Api.ActionUpkeep.Steps.{serve_actions-AllRunnable}
use hookwatch.Api.Answer.{HookCall, Server}
use hookwatch.Api.Change.{handle_delete, handle_rotate, handle_update}
use hookwatch.Api.GrantHandlers.{GrantCall, handle_create_grant, handle_delete_grant, manage}
use hookwatch.Api.Guarded.{Guarded, handlers-Guarded}
use hookwatch.Api.Manage.{TokenLibs, WriteCall}
use hookwatch.Api.Payload.{TokenPayload}
use hookwatch.Api.Sharing.{
  GrantRequest, gives, is_shared_with-can_access_token, serve_grants, takes,
}
use hookwatch.Api.Upkeep.{AllConfigured}
use hookwatch.Api.Upkeep.Serving.{
  HookRequest, creates, rotates, serve_all, serve_all-AllConfigured, shows, updates,
}
use hookwatch.Authz.{can_access_token, can_manage_grants, delete, edit, view}
use hookwatch.Hub.{Hub}
use hookwatch.Prelude.{
  List, [], arith, false, none, ok, pos, refl, some, to_lower, trim_space, true, ◌∷◌, ◌≡◌,
}
use hookwatch.Store.Db.{Db}
use hookwatch.Store.Grants.{create_hook_grant, delete_hook_grant_by_token_and_user}
use hookwatch.Store.PeopleLists.{is_shared_with}
use hookwatch.Store.Tokens.{get_token}
use hookwatch.Store.Users.{get_user_by_email}
use hookwatch.Tests.Samples.{
  ann, bob, hook, one_day, request_of, root, sample_db, sqlite_transaction,
}
use hookwatch.Tests.WorkerTests.{calm_run, sample_codec}
use hookwatch.Worker.Execution.{initial_context}
use hookwatch.Worker.Executors.{Execution}
use hookwatch.Worker.Pipeline.{execute}

abbrev token_libs : TokenLibs
token_libs = record {
  hash = λ s. s;
  encode_updated = λ t. some "{}";
  encode_deleted = λ id. some "{}";
}

abbrev local_server : Server
local_server = record { auth_mode = "local"; cfg = one_day }

abbrev by_ann : HookCall
by_ann = record {
  token_id = "hook";
  user = some ann;
  load_now = 60_000_000_000;
  get_fails = false;
  grant_fails = false;
}

abbrev one_write : WriteCall
one_write = record {
  now = 60_000_000_000;
  new_id = "new";
  event_id = "1";
  generated = some "secret";
  write_fails = false;
}

-- The hook becomes private, with a delay of three seconds.
abbrev private_payload : TokenPayload
private_payload = record {
  default_status = some (pos 201);
  default_content_type = none;
  default_content = none;
  legacy_default_body = some "body";
  max_requests = none;
  timeout = some (pos 3);
  cors = none;
  legacy_cors_enabled = some true;
  receive_mode = some "private";
  view_mode = none;
  persistent = none;
  rate_limit = none;
  signature_provider = some " GitHub ";
  signature_secret = some "key";
}

abbrev quiet_hub : Hub
quiet_hub = record { subscribers = []; channels = []; next = 0 }

-- The hook of the sample, with every setting in its range.
abbrev configured_db : Db
configured_db = record sample_db { tokens = hook ∷ [] }

configured : AllConfigured configured_db
unfolding trim_space
configured = (
  (
    (
      (refl, refl),
      (refl, refl),
      (omega arith, omega arith, refl, omega arith, omega arith, omega arith),
    ),
    refl,
  ),
  tt,
)

abbrev hook_requests : List HookRequest
hook_requests =
    creates one_write (some ann) (some private_payload)
    ∷ updates by_ann one_write (some private_payload)
    ∷ rotates by_ann one_write
    ∷ shows by_ann false 70_000_000_000
    ∷ []

serve_all-AllConfigured_example :
    AllConfigured (serve_all token_libs local_server hook_requests (configured_db, quiet_hub)).0
serve_all-AllConfigured_example =
    serve_all-AllConfigured token_libs local_server hook_requests configured_db quiet_hub configured

handlers-Guarded_example :
    Guarded local_server by_ann edit sample_db quiet_hub (
      handle_update token_libs local_server by_ann one_write
        (some private_payload)
        sample_db
        quiet_hub)
    × Guarded local_server by_ann edit sample_db quiet_hub
        (handle_rotate token_libs local_server by_ann one_write sample_db quiet_hub)
    × Guarded local_server by_ann delete sample_db quiet_hub
        (handle_delete token_libs local_server by_ann one_write sample_db quiet_hub)
handlers-Guarded_example =
    handlers-Guarded token_libs local_server by_ann one_write (some private_payload) sample_db
      quiet_hub

abbrev action_libs : ActionLibs
action_libs = record {
  codec = record sample_codec { parse_delay = λ s. ok (record { duration_ms = pos 500 }) };
  url_scheme = λ u. some "http";
}

delay_valid : IsRunnable action_libs "delay" "{}"
unfolding validate_action_type validate_action_config
delay_valid = (refl, refl)

validate_action_config-execute_example :
    (e : Execution) × (execute action_libs.codec
        (calm_run.moments 0)
        (request_of "r1")
        (initial_context sample_codec (request_of "r1"))
        "delay"
        "{}"
      ≡ some e)
    × RunsWell action_libs.codec
        (calm_run.moments 0)
        (initial_context sample_codec (request_of "r1"))
        "delay"
        "{}"
        e
validate_action_config-execute_example =
    validate_action_config-execute action_libs "delay" "{}" (calm_run.moments 0) (request_of "r1")
      (initial_context sample_codec (request_of "r1")) delay_valid

abbrev one_action_call : ActionCall
one_action_call = record {
  now = 60_000_000_000;
  new_id = "c";
  query_fails = false;
  write_fails = false;
}

abbrev action_requests : List ActionRequest
action_requests =
    creates_action by_ann one_action_call
      (some (record { type = "delay"; config = "{}"; enabled = none }))
    ∷ updates_action by_ann one_action_call "a"
        (some (record { type = some "filter"; config = some "{}"; enabled = none }))
    ∷ reorders_actions by_ann false (λ i. false) (some ("b" ∷ "a" ∷ []))
    ∷ []

serve_actions-AllRunnable_example :
    AllRunnable action_libs
      (serve_actions action_libs local_server sqlite_transaction action_requests sample_db)
serve_actions-AllRunnable_example =
    serve_actions-AllRunnable action_libs local_server sqlite_transaction action_requests sample_db
      refl (delay_valid, (delay_valid, tt))

abbrev root_grant_call : GrantCall
root_grant_call = record {
  token_id = "hook";
  user = some root;
  now = 60_000_000_000;
  new_id = "g2";
  get_fails = false;
  user_fails = false;
  write_fails = false;
}

abbrev grant_requests : List GrantRequest
grant_requests =
    takes root_grant_call "bob"
    ∷ gives root_grant_call (some (record { user_id = ""; email = "bob"; role = " Viewer" }))
    ∷ []

is_shared_with-can_access_token_example :
    can_access_token false "local"
      (some bob)
      hook
      view
      (serve_grants local_server grant_requests sample_db)
    ≡ true
unfolding is_shared_with handle_create_grant handle_delete_grant manage get_token can_manage_grants
    delete_hook_grant_by_token_and_user to_lower trim_space get_user_by_email create_hook_grant
is_shared_with-can_access_token_example =
    is_shared_with-can_access_token local_server grant_requests sample_db bob hook "local"
      (refl, tt) refl
