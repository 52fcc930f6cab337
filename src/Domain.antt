-- ===== src/Domain.antt =====
-- The business types of api/internal/domain, and domain/errors.go through Base.Result.
-- Times are nanoseconds since the epoch, and a UUID is the number that its sixteen bytes spell.
use postulate.Base.{◌≢◌, arith, eq_iff, ℕ, String, Bool, false, Option, none}

-- domain.UserRole and domain.UserStatus are texts, with constants for the values in use.
abbrev pub UserRole : Type 0
UserRole = String

abbrev pub UserStatus : Type 0
UserStatus = String

abbrev pub role_platform_member : UserRole
role_platform_member = "platform_member"

abbrev pub role_platform_admin : UserRole
role_platform_admin = "platform_admin"

abbrev pub status_active : UserStatus
status_active = "active"

abbrev pub status_suspended : UserStatus
status_suspended = "suspended"

abbrev pub status_pending_verification : UserStatus
status_pending_verification = "pending_verification"

-- `uuid.Nil`, the zero value of `uuid.UUID`.
abbrev pub nil_uuid : ℕ
nil_uuid = 0

pub record User : Type 0 where
  pub id : ℕ
  pub email : String
  pub email_verified : Bool
  pub password_hash : Option String
  pub full_name : String
  pub role : UserRole
  pub status : UserStatus
  pub created_at : ℕ
  pub updated_at : ℕ
  pub deleted_at : Option ℕ

pub record OAuthAccount : Type 0 where
  pub id : ℕ
  pub user_id : ℕ
  pub provider : String
  pub provider_uid : String
  pub email : String
  pub access_token : Option String
  pub refresh_token : Option String
  pub token_expiry : Option ℕ
  pub created_at : ℕ
  pub updated_at : ℕ

pub record RefreshToken : Type 0 where
  pub id : ℕ
  pub session_id : ℕ
  pub user_id : ℕ
  pub token_hash : String
  pub expires_at : ℕ
  pub used_at : Option ℕ
  pub created_at : ℕ

pub record Session : Type 0 where
  pub id : ℕ
  pub user_id : ℕ
  pub token_hash : String
  pub ip_address : String
  pub user_agent : String
  pub last_active_at : ℕ
  pub expires_at : ℕ
  pub created_at : ℕ
  pub revoked_at : Option ℕ

-- The zero values `&domain.User{}`, `&domain.OAuthAccount{}` and so on, into which rows are scanned.
abbrev pub zero_user : User
zero_user = record {
  id = nil_uuid;
  email = "";
  email_verified = false;
  password_hash = none;
  full_name = "";
  role = "";
  status = "";
  created_at = 0;
  updated_at = 0;
  deleted_at = none;
}

abbrev pub zero_account : OAuthAccount
zero_account = record {
  id = nil_uuid;
  user_id = nil_uuid;
  provider = "";
  provider_uid = "";
  email = "";
  access_token = none;
  refresh_token = none;
  token_expiry = none;
  created_at = 0;
  updated_at = 0;
}

abbrev pub zero_token : RefreshToken
zero_token = record {
  id = nil_uuid;
  session_id = nil_uuid;
  user_id = nil_uuid;
  token_hash = "";
  expires_at = 0;
  used_at = none;
  created_at = 0;
}

abbrev pub zero_session : Session
zero_session = record {
  id = nil_uuid;
  user_id = nil_uuid;
  token_hash = "";
  ip_address = "";
  user_agent = "";
  last_active_at = 0;
  expires_at = 0;
  created_at = 0;
  revoked_at = none;
}

pub member-ne-admin : role_platform_member ≢ role_platform_admin
member-ne-admin = ground (arith, eq_iff role_platform_member role_platform_admin)
