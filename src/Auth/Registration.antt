-- ===== src/Auth/Registration.antt =====
-- auth.service.ts: registration and email verification.
pub mod Verifying
pub mod Confirming
use secure_auth_x_pro.Text.{concat}
use secure_auth_x_pro.Prelude.{
  ℕ, ◌+◌, ◌*◌, Bool, true, false, not, ◌||◌, Option, none, some, [], ◌∷◌, String, is_some, ltb,
  if◌then◌else◌,
}
use secure_auth_x_pro.Schema.{User, UserRole, UserStatus, Profile, EmailVerification, info, text}
use secure_auth_x_pro.Prisma.{Prisma}
use secure_auth_x_pro.World.{World}
use secure_auth_x_pro.Http.{RequestContext, non_empty}
use secure_auth_x_pro.Exec.{
  Action, app, bad_request, pure, gets, modify, draw, require, or_throw, when, ◌>>=◌, ◌>>◌,
}
use secure_auth_x_pro.Repositories.Users
use secure_auth_x_pro.Repositories.EmailVerifications
use secure_auth_x_pro.Repositories.Audits
use secure_auth_x_pro.Jwt.{hash_password}

pub record RegisterInput : Type 0 where
  pub email : String
  pub password : String
  pub first_name : Option String
  pub last_name : Option String
  pub display_name : Option String

-- RegisterResponseData
pub record RegisterResponse : Type 0 where
  pub email : String
  pub requires_email_verification : Bool

-- VerifyEmailResponseData
pub record VerifyEmailResponse : Type 0 where
  pub email : String
  pub verified : Bool

-- ResendVerificationResponseData
pub record ResendResponse : Type 0 where
  pub email : String
  pub sent : Bool

-- 'sent' | 'resent'
pub data Mode : Type 0 where
  sent resent : Mode

abbrev pub sent_action : Mode → String
sent_action resent = "account.email_verification_resent"
sent_action sent = "account.email_verification_sent"

abbrev full_name : Option String → Option String → Option String
full_name (some first) (some last) = some (concat first (concat " " last))
full_name _ _ = none

-- `displayName ?? (…)`: an empty display name is kept.
abbrev shown_name : Option String → Option String → Option String → Option String
shown_name (some name) first last = some name
shown_name none first last = full_name (non_empty first) (non_empty last)

-- The profile that is created, where any of the three names is given.
unfoldable pub profile_of : RegisterInput → Option Profile
profile_of input =
    if is_some (non_empty input.first_name)
      || is_some (non_empty input.last_name)
      || is_some (non_empty input.display_name)
    then some (record {
      first_name = input.first_name;
      last_name = input.last_name;
      display_name = shown_name input.display_name input.first_name input.last_name;
    })
    else none

-- A row as `users.create` writes it, with the defaults of the schema.
abbrev pub new_user : String → ℕ → String → RegisterInput → User
new_user id now password_hash input = record {
  id = id;
  email = input.email;
  password_hash = some password_hash;
  role = UserRole.user;
  status = UserStatus.pending_verification;
  email_verified = false;
  email_verified_at = none;
  mfa_enabled = false;
  totp_enabled = false;
  webauthn_enabled = false;
  failed_login_attempts = 0;
  locked_until = none;
  last_login_at = none;
  last_login_ip = none;
  created_at = now;
  profile = profile_of input;
}

-- `record.usedAt || record.expiresAt < new Date()`
abbrev pub is_spent : EmailVerification → ℕ → Bool
is_spent v now = is_some v.used_at || ltb v.expires_at now

abbrev pub token_invalid : String
token_invalid = "Verification token is invalid or has expired."

module _ (db : Prisma) (w : World) where
  -- MailService.sendVerificationEmail never throws: the message is handed to the transport.
  abbrev send_verification_email : String → String → Action (Unit {0})
  send_verification_email to token =
      modify (λ s. record s { outbox = record { to = to; token = token } ∷ s.outbox })

  unfoldable pub issue_verification_token :
      String → String → RequestContext → Mode → Action (Unit {0})
  issue_verification_token user_id email req mode = do
    EmailVerifications.revoke_pending db user_id
    raw_token ← draw w.random_base64url
    row_id ← draw w.random_uuid
    now ← gets (λ s. s.now)
    EmailVerifications.create db (record {
      id = row_id;
      user_id = user_id;
      token_hash = w.sha256 raw_token;
      expires_at = now + w.email_verification_ttl * 1000;
      used_at = none;
    })
    send_verification_email email raw_token
    Audits.log db (some user_id) (sent_action mode) info req []

  unfoldable pub register_existing : User → RegisterInput → RequestContext → Action RegisterResponse
  register_existing existing input req = do
    when (not existing.email_verified)
        (issue_verification_token existing.id existing.email req resent)
    Audits.log db (some existing.id) "auth.register" info req
        (("email", text input.email) ∷ ("reason", text "already_exists") ∷ [])
    pure (record { email = input.email; requires_email_verification = true })

  unfoldable pub register_new : RegisterInput → RequestContext → Action RegisterResponse
  register_new input req = do
    password_hash ← draw (hash_password w input.password)
    id ← draw w.random_uuid
    now ← gets (λ s. s.now)
    user ← Users.create db (new_user id now password_hash input)
    Audits.log db (some user.id) "auth.register" info req []
    issue_verification_token user.id user.email req sent
    pure (record { email = user.email; requires_email_verification = true })

  unfoldable pub register : RegisterInput → RequestContext → Action RegisterResponse
  register input req = do
    found ← Users.find_by_email db input.email
    elim found [
      | some existing ↦ register_existing existing input req
      | none ↦ register_new input req
    ]

  unfoldable pub verify_found :
      EmailVerification → User → RequestContext → Action VerifyEmailResponse
  verify_found v user req =
      if user.email_verified
      then (do
        EmailVerifications.mark_used db v.id
        pure (record { email = user.email; verified = true }))
      else (do
        now ← gets (λ s. s.now)
        require (not (is_spent v now)) (bad_request token_invalid)
        EmailVerifications.mark_used db v.id
        Users.mark_email_verified db user.id
        Audits.log db (some user.id) "account.email_verified" info req []
        pure (record { email = user.email; verified = true }))

  unfoldable pub verify_email : String → RequestContext → Action VerifyEmailResponse
  verify_email token req = do
    found ← EmailVerifications.find_active_by_hash db (w.sha256 token)
    (v, user) ← or_throw found (app (bad_request token_invalid))
    verify_found v user req

  abbrev pub needs_verification : Option User → Option User
  needs_verification none = none
  needs_verification (some user) = if user.email_verified then none else some user

  unfoldable pub resend_verification : String → RequestContext → Action ResendResponse
  resend_verification email req = do
    found ← Users.find_by_email db email
    elim (needs_verification found) [
      | none ↦ pure tt
      | some user ↦ issue_verification_token user.id user.email req resent
    ]
    pure (record { email = email; sent = true })
