-- ===== src/Models/Accounts.antt =====
-- Rows of app/db/models/user.py, admin.py, audit.py and moderation.py (reports).
use matchmaking_backend.Prelude.{ℕ, Bool, Option, none, some, String, List}
use matchmaking_backend.Enums.{AccountStatus, UserRole, ReportStatus}

-- The values that a JSON column holds here; `uuid` is the text of a UUID.
pub data Json : Type 0 where
  null : Json
  boolean : Bool → Json
  number uuid : ℕ → Json
  text : String → Json
  texts : List String → Json

abbrev pub or_null : Option String → Json
or_null none = Json.null
or_null (some s) = Json.text s

abbrev pub JsonDict : Type 0
JsonDict = List (String × Json)

pub record User : Type 0 where
  pub id : ℕ
  pub phone_number : Option String
  pub email : Option String
  pub password_hash : Option String
  pub phone_verified_at : Option ℕ
  pub email_verified_at : Option ℕ
  pub account_status : AccountStatus
  pub role : UserRole
  pub is_banned : Bool
  pub banned_at : Option ℕ
  pub suspended_at : Option ℕ
  pub suspended_until : Option ℕ
  pub suspended_reason : Option String
  pub suspended_by : Option ℕ
  pub last_login_at : Option ℕ
  pub last_active_at : Option ℕ
  pub created_at : ℕ
  pub deleted_at : Option ℕ

pub record RefreshTokenRecord : Type 0 where
  pub id : ℕ
  pub user_id : ℕ
  pub jti : ℕ
  pub expires_at : ℕ
  pub revoked_at : Option ℕ
  pub replaced_by_jti : Option ℕ
  pub created_at : ℕ

pub record RolePermission : Type 0 where
  pub id : ℕ
  pub role : UserRole
  pub permission : String

pub record UserTotpSecret : Type 0 where
  pub id : ℕ
  pub user_id : ℕ
  pub secret : String
  pub is_enabled : Bool
  pub last_used_at : Option ℕ

pub record RecoveryCode : Type 0 where
  pub id : ℕ
  pub user_id : ℕ
  pub code_hash : String
  pub used_at : Option ℕ
  pub created_at : ℕ

pub record AuditLog : Type 0 where
  pub id : ℕ
  pub actor_user_id : Option ℕ
  pub action : String
  pub entity_type : Option String
  pub entity_id : Option Json
  pub meta : JsonDict
  pub created_at : ℕ

pub record Report : Type 0 where
  pub id : ℕ
  pub reporter_id : ℕ
  pub reported_user_id : ℕ
  pub reason : String
  pub description : Option String
  pub status : ReportStatus
  pub reviewed_by : Option ℕ
  pub reviewed_at : Option ℕ
  pub created_at : ℕ
