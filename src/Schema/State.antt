-- ===== src/Schema/State.antt =====
-- All the state that the API reads and writes: the tables, the cache of pending challenges
-- (apps/api/src/config/cache.ts, MfaService), the mail handed to the transport, the clock, and
-- how many random values were drawn so far. A request runs at one clock value.
use secure_auth_x_pro.Prelude.{ℕ, Bool, Option, List, [], String}
use secure_auth_x_pro.Schema.Rows.{
  User, Session, TrustedDevice, TotpSecret, RecoveryCode, WebAuthnCredential, EmailVerification,
  AuditLog, SecurityEvent,
}

-- MfaMethod
pub data MfaMethod : Type 0 where
  totp webauthn recovery : MfaMethod

-- LoginChallengeState
pub record LoginChallengeState : Type 0 where
  pub user_id : String
  pub remember_me : Bool
  pub available_methods : List MfaMethod
  pub created_at : ℕ

pub data CeremonyKind : Type 0 where
  register authenticate : CeremonyKind

-- WebAuthnCeremonyState
pub record WebAuthnCeremonyState : Type 0 where
  pub kind : CeremonyKind
  pub user_id : String
  pub login_challenge_id : Option String
  pub expected_challenge : String
  pub expected_origin : String
  pub expected_rp_id : String
  pub created_at : ℕ

-- What the cache holds: `unknown` in the source, one of the two states here.
pub data CacheValue : Type 0 where
  challenge : LoginChallengeState → CacheValue
  ceremony : WebAuthnCeremonyState → CacheValue

pub record CacheItem : Type 0 where
  pub value : CacheValue
  pub expires_at : Option ℕ

-- A message handed to the mail transport: the recipient and the raw token in its link.
pub record Mail : Type 0 where
  pub to : String
  pub token : String

pub record Store : Type 0 where
  pub users : List User
  pub sessions : List Session
  pub trusted_devices : List TrustedDevice
  pub totp_secrets : List TotpSecret
  pub recovery_codes : List RecoveryCode
  pub credentials : List WebAuthnCredential
  pub email_verifications : List EmailVerification
  pub audit_logs : List AuditLog
  pub security_events : List SecurityEvent
  pub cache : List (String × CacheItem)
  pub outbox : List Mail
  pub now : ℕ
  pub draws : ℕ

abbrev pub no_rows : Store
no_rows = record {
  users = [];
  sessions = [];
  trusted_devices = [];
  totp_secrets = [];
  recovery_codes = [];
  credentials = [];
  email_verifications = [];
  audit_logs = [];
  security_events = [];
  cache = [];
  outbox = [];
  now = 0;
  draws = 0;
}
