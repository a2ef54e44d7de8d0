-- ===== src/Auth/Responses.antt =====
-- auth.service.ts: what the methods return (packages/types/src/auth.ts).
use secure_auth_x_pro.Prelude.{ℕ, Bool, Option, String}
use secure_auth_x_pro.Schema.{User, UserRole, UserStatus}
use secure_auth_x_pro.Mfa.Challenges.{IssuedChallenge}

pub record AuthUser : Type 0 where
  pub id : String
  pub email : String
  pub role : UserRole
  pub status : UserStatus
  pub email_verified : Bool
  pub mfa_enabled : Bool
  pub created_at : ℕ
  pub last_login_at : Option ℕ

pub record AuthTokens : Type 0 where
  pub access_token : String
  pub refresh_token : String
  pub csrf_token : String
  pub expires_in : ℕ
  pub token_type : String

-- LoginResponseData, also returned by a refresh
pub record SignedIn : Type 0 where
  pub user : AuthUser
  pub tokens : AuthTokens

-- LoginResponseData | MfaLoginResponseData
pub data LoginResponse : Type 0 where
  signed_in : SignedIn → LoginResponse
  mfa_required : IssuedChallenge → LoginResponse

-- MfaLoginCompletion
pub record MfaLoginCompletion : Type 0 where
  pub user : AuthUser
  pub tokens : AuthTokens
  pub device_token : Option String

-- toAuthUser: the dates stay numbers of milliseconds.
unfoldable pub to_auth_user : User → AuthUser
to_auth_user user = record {
  id = user.id;
  email = user.email;
  role = user.role;
  status = user.status;
  email_verified = user.email_verified;
  mfa_enabled = user.mfa_enabled;
  created_at = user.created_at;
  last_login_at = user.last_login_at;
}
