-- ===== src/World.antt =====
-- What the services use and do not implement: the environment (packages/config/src/env.ts,
-- validated numbers and texts) and the third-party packages node:crypto, bcryptjs, jose and
-- @simplewebauthn/server. `w : World` is a parameter of the model. A random value is a function of
-- how many values were drawn before it.
use secure_auth_x_pro.Prelude.{ℕ, Bool, Option, List, String}
use secure_auth_x_pro.Schema.{JwtPayload}

-- env.ts
pub record Env : Type 0 where
  pub jwt_access_secret : String
  pub jwt_refresh_secret : String
  pub jwt_issuer : String
  pub jwt_audience : String
  pub jwt_access_ttl : ℕ
  pub jwt_refresh_ttl : ℕ
  pub email_verification_ttl : ℕ
  pub login_max_attempts : ℕ
  pub login_lockout_minutes : ℕ
  pub session_timeout_minutes : ℕ
  pub mfa_challenge_ttl : ℕ
  pub encryption_key : List ℕ
  pub webauthn_rp_id : String
  pub webauthn_origin : String

-- What a verified WebAuthn registration carries.
pub record RegistrationInfo : Type 0 where
  pub credential_id : String
  pub public_key : String
  pub counter : ℕ
  pub aaguid : String

pub record World : Type 0 where
  pub env : Env
  pub open env use *
  -- node:crypto
  pub sha256 : String → String
  pub random_uuid : ℕ → String
  pub random_base64url : ℕ → String
  pub random_hex : ℕ → String
  pub random_bytes : ℕ → ℕ → List ℕ
  pub hmac_sha1 : List ℕ → List ℕ → List ℕ
  pub gcm_seal : List ℕ → List ℕ → String → List ℕ × List ℕ
  pub gcm_open : List ℕ → List ℕ → List ℕ → List ℕ → Option String
  -- Buffer
  pub to_base64 : List ℕ → String
  pub from_base64 : String → List ℕ
  -- bcryptjs: null where `compare` throws
  pub bcrypt_hash : String → ℕ → String
  pub bcrypt_compare : String → String → Option Bool
  -- jose: a key, the time, the expected issuer and audience, the token
  pub jwt_sign : String → JwtPayload → String
  pub jwt_verify : String → ℕ → String → String → String → Option JwtPayload
  -- @simplewebauthn/server: the challenge of fresh options; a verification, null where it throws
  pub webauthn_challenge : ℕ → String
  pub verify_assertion : String → String → String → String → ℕ → String → Option (Bool × ℕ)
  pub verify_registration : String → String → String → String → Option (Option RegistrationInfo)
  -- describeDevice and computeDeviceFingerprint of packages/shared/src/device.ts: labels that no
  -- decision reads
  pub describe_device : String → String
  pub device_fingerprint : String → String → String
