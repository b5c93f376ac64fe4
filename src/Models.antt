-- ===== src/Models.antt =====
-- internal/models/models.go: the records that every part of the program passes around.
-- A `time.Time` is the number of nanoseconds since Go's zero time, so `IsZero` is a test for 0.
-- A pointer that may be nil is an `Option`, an `int` that may be negative an integer.
use hookwatch.Prelude.{Bool, List, Option, String, ℕ, ℤ}

abbrev pub Time : Type 0
Time = ℕ

pub record User : Type 0 where
  pub id : String
  pub email : String
  pub display_name : String
  pub password_hash : Option String
  pub oidc_provider : Option String
  pub oidc_subject : Option String
  pub global_role : String
  pub created_at : Time
  pub updated_at : Time

pub record Session : Type 0 where
  pub id : String
  pub user_id : String
  pub created_at : Time
  pub expires_at : Time
  pub ip : String
  pub user_agent : String

pub record Token : Type 0 where
  pub uuid : String
  pub owner_id : Option String
  pub receive_mode : String
  pub view_mode : String
  pub persistent : Bool
  pub receive_secret_hash : Option String
  pub receive_secret_prefix : Option String
  pub signature_provider : String
  pub signature_secret : Option String
  pub default_status : ℤ
  pub default_content : String
  pub default_content_type : String
  pub max_requests : ℤ
  pub timeout : ℤ
  pub cors : Bool
  pub rate_limit : ℤ
  pub created_at : Time
  pub updated_at : Time
  pub expires_at : Time

pub record Request : Type 0 where
  pub uuid : String
  pub token_id : String
  pub ip : String
  pub hostname : String
  pub method : String
  pub user_agent : String
  pub content : String
  pub query : String
  pub headers : String
  pub form_data : String
  pub url : String
  pub size : ℕ
  pub signature_status : String
  pub signature_provider : Option String
  pub signature_error : Option String
  pub created_at : Time

pub record Action : Type 0 where
  pub uuid : String
  pub token_id : String
  pub type : String
  pub config : String
  pub sort_order : ℤ
  pub enabled : Bool
  pub created_at : Time
  pub updated_at : Time

pub record ActionLog : Type 0 where
  pub uuid : String
  pub action_id : String
  pub request_id : String
  pub status : String
  pub result : String
  pub started_at : Time
  pub completed_at : Time

pub record ForwardConfig : Type 0 where
  pub url : String
  pub method : String
  pub headers : List (String × String)
  pub timeout : ℤ

pub record FilterConfig : Type 0 where
  pub field : String
  pub operator : String
  pub value : String
  pub negate : Bool

pub record DelayConfig : Type 0 where
  pub duration_ms : ℤ

pub record TransformConfig : Type 0 where
  pub status : Option ℤ
  pub content_type : Option String
  pub body : Option String

pub record HookGrant : Type 0 where
  pub id : String
  pub token_id : String
  pub user_id : String
  pub role : String
  pub granted_by : String
  pub created_at : Time
