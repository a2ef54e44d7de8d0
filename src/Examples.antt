-- ===== src/Examples.antt =====
-- A small installation: one account, its session, and stand-ins for the packages. The theorems of
-- the other modules are applied to it in the child modules.
mod Login
mod Refresh
mod Parts
mod SecondFactor
mod Settings
mod Sequences
mod Accounts
mod Guards
mod Api
mod Web
mod Listings
mod Enrollment
use secure_auth_x_pro.Prelude.{
  ℕ, zero, suc, true, false, Option, none, some, List, [], ◌∷◌, String, ◌==◌, if◌then◌else◌,
}
use secure_auth_x_pro.Schema.{
  Store, no_rows, User, UserRole, UserStatus, Session, SessionStatus, JwtPayload,
}
use secure_auth_x_pro.World.{World, Env}
use secure_auth_x_pro.Http.{RequestContext}

abbrev pub zeros : ℕ → List ℕ
zeros zero = []
zeros (suc n) = 0 ∷ zeros n

abbrev settings : Env
settings = record {
  jwt_access_secret = "access-secret";
  jwt_refresh_secret = "refresh-secret";
  jwt_issuer = "secureauthx";
  jwt_audience = "secureauthx-web";
  jwt_access_ttl = 900;
  jwt_refresh_ttl = 604800;
  email_verification_ttl = 86400;
  login_max_attempts = 2;
  login_lockout_minutes = 15;
  session_timeout_minutes = 30;
  mfa_challenge_ttl = 300;
  encryption_key = [];
  webauthn_rp_id = "localhost";
  webauthn_origin = "http://localhost:3000";
}

abbrev refresh_payload : JwtPayload
refresh_payload = record {
  sub = "u1";
  email = none;
  role = none;
  session_id = some "s1";
  jti = some "s1";
  nonce = some "n1";
  type = "refresh";
  iat = 1;
  exp = 100;
  iss = "secureauthx";
  aud = "secureauthx-web";
}

-- Every token, of both kinds, verifies but "forged", and names the session "s1".
abbrev verify_token : String → Option JwtPayload
verify_token token = if token == "forged" then none else some refresh_payload

abbrev world : World
world = record {
  env = settings;
  sha256 = λ x. x;
  random_uuid = λ n. "uuid";
  random_base64url = λ n. "token";
  random_hex = λ n. "0123456789abcdef";
  random_bytes = λ k n. [];
  hmac_sha1 = λ k m. [];
  gcm_seal = λ k iv x. ([], []);
  gcm_open = λ k iv tag c. none;
  to_base64 = λ b. "";
  from_base64 = λ x. [];
  bcrypt_hash = λ x n. x;
  bcrypt_compare = λ x h. some (x == h);
  jwt_sign = λ k p. "rotated";
  jwt_verify = λ k now iss aud token. verify_token token;
  webauthn_challenge = λ n. "challenge";
  verify_assertion = λ r c o i n k. none;
  verify_registration = λ r c o i. none;
  describe_device = λ ua. "Unknown device";
  device_fingerprint = λ ua ip. "fingerprint";
}

abbrev alice : User
alice = record {
  id = "u1";
  email = "alice@example.com";
  password_hash = some "correct horse";
  role = UserRole.user;
  status = UserStatus.active;
  email_verified = true;
  email_verified_at = some 1;
  mfa_enabled = false;
  totp_enabled = false;
  webauthn_enabled = false;
  failed_login_attempts = 0;
  locked_until = none;
  last_login_at = none;
  last_login_ip = none;
  created_at = 0;
  profile = none;
}

abbrev session : Session
session = record {
  id = "s1";
  user_id = "u1";
  refresh_token_hash = "issued";
  ip_address = "203.0.113.7";
  user_agent = "";
  device_name = "Unknown device";
  device_fingerprint = none;
  status = SessionStatus.active;
  expires_at = 5000;
  last_active_at = 0;
  created_at = 0;
}

abbrev store : Store
store = record no_rows { users = alice ∷ []; sessions = session ∷ []; now = 1000 }

abbrev request : RequestContext
request = record { headers = []; cookies = []; remote_address = some "203.0.113.7" }
