-- ===== src/Schema/Rows.antt =====
-- The data model: packages/database/prisma/schema.prisma, and the JWT payloads of
-- packages/types/src/auth.ts. Timestamps are milliseconds since the epoch, as `Date` keeps them.
-- Columns that only the database fills and no code reads (row ids of log tables, `updatedAt`) are
-- left out.
use secure_auth_x_pro.Prelude.{ℕ, Bool, true, false, Option, List, String}

pub data UserRole : Type 0 where
  user admin : UserRole

pub data UserStatus : Type 0 where
  active locked disabled pending_verification : UserStatus

pub data SessionStatus : Type 0 where
  active expired revoked : SessionStatus

pub data Severity : Type 0 where
  info warn critical : Severity

-- `===` on the enums
abbrev pub same_role : UserRole → UserRole → Bool
same_role UserRole.user UserRole.user = true
same_role UserRole.admin UserRole.admin = true
same_role _ _ = false

abbrev pub same_status : UserStatus → UserStatus → Bool
same_status UserStatus.active UserStatus.active = true
same_status UserStatus.locked UserStatus.locked = true
same_status UserStatus.disabled UserStatus.disabled = true
same_status UserStatus.pending_verification UserStatus.pending_verification = true
same_status _ _ = false

abbrev pub same_severity : Severity → Severity → Bool
same_severity info info = true
same_severity warn warn = true
same_severity critical critical = true
same_severity _ _ = false

abbrev pub is_active : SessionStatus → Bool
is_active SessionStatus.active = true
is_active _ = false

pub record Profile : Type 0 where
  pub first_name : Option String
  pub last_name : Option String
  pub display_name : Option String

pub record User : Type 0 where
  pub id : String
  pub email : String
  pub password_hash : Option String
  pub role : UserRole
  pub status : UserStatus
  pub email_verified : Bool
  pub email_verified_at : Option ℕ
  pub mfa_enabled : Bool
  pub totp_enabled : Bool
  pub webauthn_enabled : Bool
  pub failed_login_attempts : ℕ
  pub locked_until : Option ℕ
  pub last_login_at : Option ℕ
  pub last_login_ip : Option String
  pub created_at : ℕ
  pub profile : Option Profile

pub record Session : Type 0 where
  pub id : String
  pub user_id : String
  pub refresh_token_hash : String
  pub ip_address : String
  pub user_agent : String
  pub device_name : String
  pub device_fingerprint : Option String
  pub status : SessionStatus
  pub expires_at : ℕ
  pub last_active_at : ℕ
  pub created_at : ℕ

pub record TrustedDevice : Type 0 where
  pub id : String
  pub user_id : String
  pub device_name : String
  pub device_fingerprint : String
  pub platform : Option String
  pub browser : Option String
  pub ip_address : Option String
  pub trusted_at : ℕ
  pub last_used_at : ℕ

pub record TotpSecret : Type 0 where
  pub user_id : String
  pub secret : String
  pub verified : Bool
  pub enabled : Bool

pub record RecoveryCode : Type 0 where
  pub user_id : String
  pub code_hash : String
  pub used_at : Option ℕ

pub record WebAuthnCredential : Type 0 where
  pub user_id : String
  pub credential_id : String
  pub public_key : String
  pub sign_count : ℕ
  pub device_name : String
  pub transports : List String
  pub aaguid : Option String
  pub last_used_at : ℕ
  pub created_at : ℕ

pub record EmailVerification : Type 0 where
  pub id : String
  pub user_id : String
  pub token_hash : String
  pub expires_at : ℕ
  pub used_at : Option ℕ

-- A value in a `metadata` object.
pub data Meta : Type 0 where
  text : String → Meta
  number : ℕ → Meta
  flag : Bool → Meta

pub record AuditLog : Type 0 where
  pub user_id : Option String
  pub action : String
  pub severity : Severity
  pub ip_address : Option String
  pub user_agent : Option String
  pub metadata : List (String × Meta)
  pub created_at : ℕ

pub record SecurityEvent : Type 0 where
  pub user_id : Option String
  pub type : String
  pub severity : Severity
  pub ip_address : Option String
  pub user_agent : Option String
  pub metadata : List (String × Meta)
  pub created_at : ℕ

-- JwtAccessPayload and JwtRefreshPayload: `verify` casts whatever was signed to either, so a
-- claim that a token lacks is null. Times are seconds.
pub record JwtPayload : Type 0 where
  pub sub : String
  pub email : Option String
  pub role : Option UserRole
  pub session_id : Option String
  pub jti : Option String
  pub nonce : Option String
  pub type : String
  pub iat : ℕ
  pub exp : ℕ
  pub iss : String
  pub aud : String
