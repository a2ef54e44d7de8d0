-- ===== src/Auth/Login.antt =====
-- auth.service.ts: the password step of a login, in the order of the source.
pub mod Branches
pub mod Lockout
pub mod Attempts
pub mod Grants
pub mod Admission
use secure_auth_x_pro.Prelude.{
  ℕ, ◌+◌, ◌-◌, ◌*◌, ◌/◌, max, Bool, not, ◌||◌, none, some, [], ◌∷◌, String, leb, get_or,
  if◌then◌else◌,
}
use secure_auth_x_pro.Schema.{
  User, UserStatus, MfaMethod, totp, webauthn, recovery, same_status, info, warn, critical, text,
  number, flag,
}
use secure_auth_x_pro.Prisma.{Prisma}
use secure_auth_x_pro.World.{World}
use secure_auth_x_pro.Http.{RequestContext, get_client_ip, get_user_agent}
use secure_auth_x_pro.Exec.{
  Action, AppError, Failure, app, app_error, unauthorized, pure, throw, gets, require, when, ◌>>=◌,
  ◌>>◌,
}
use secure_auth_x_pro.Repositories.Users
use secure_auth_x_pro.Repositories.Users.{lock_pending}
use secure_auth_x_pro.Repositories.Audits
use secure_auth_x_pro.Jwt.{verify_password}
use secure_auth_x_pro.Mfa.Challenges.{issue_login_challenge}
use secure_auth_x_pro.Mfa.Devices.{is_device_trusted}
use secure_auth_x_pro.Auth.Responses.{LoginResponse, signed_in, mfa_required, to_auth_user}
use secure_auth_x_pro.Auth.Tokens.{issue_tokens}

pub record LoginInput : Type 0 where
  pub email : String
  pub password : String
  pub remember_me : Bool

abbrev pub invalid_credentials : Failure
invalid_credentials = app (unauthorized "Invalid email or password.")

abbrev pub account_disabled : AppError
account_disabled =
    app_error 403 "ACCOUNT_DISABLED" "Account has been disabled. Contact an administrator."

-- The seconds, at least 1 and rounded up, from `now` to the end of a lock.
abbrev pub retry_after : ℕ → ℕ → ℕ
retry_after until now = max 1 ((until - now + 999) / 1000)

abbrev pub account_locked : ℕ → AppError
account_locked seconds = record {
  status_code = 423;
  code = "ACCOUNT_LOCKED";
  message = "Account is temporarily locked due to too many failed attempts.";
  retry_after_seconds = some seconds;
}

abbrev pub email_not_verified : AppError
email_not_verified =
    app_error 403 "EMAIL_NOT_VERIFIED"
      "Your email address has not been verified yet. Check your inbox for the verification link."

abbrev pub method_name : MfaMethod → String
method_name totp = "totp"
method_name webauthn = "webauthn"
method_name recovery = "recovery"

module _ (db : Prisma) (w : World) where
  unfoldable pub refuse_locked : {A : Type 0} → User → RequestContext → ℕ → Action A
  refuse_locked user req now = do
    Audits.log db (some user.id) "auth.login_failed" warn req
        (("reason", text "account_locked") ∷ [])
    throw (app (account_locked (retry_after (get_or user.locked_until 0) now)))

  -- `if (user.status === 'LOCKED')`: refused while the lock lasts, and unlocked after it.
  unfoldable pub check_lock : User → RequestContext → Action (Unit {0})
  check_lock user req =
      if same_status user.status UserStatus.locked
      then (do
        now ← gets (λ s. s.now)
        if lock_pending user.locked_until now
            then refuse_locked user req now
            else (do Users.unlock db user.id; pure tt))
      else pure tt

  unfoldable pub refuse_unverified : {A : Type 0} → User → RequestContext → Action A
  refuse_unverified user req = do
    Audits.log db (some user.id) "auth.login_failed" warn req
        (("reason", text "email_not_verified") ∷ [])
    throw (app email_not_verified)

  unfoldable pub check_verified : User → RequestContext → Action (Unit {0})
  check_verified user req =
      if not user.email_verified || same_status user.status UserStatus.pending_verification
      then refuse_unverified user req
      else pure tt

  -- `if (!valid)`: the attempt is counted on the row as it was read, and the last one locks.
  unfoldable pub fail_password : {A : Type 0} → User → RequestContext → Action A
  fail_password user req = do
    now ← gets (λ s. s.now)
    let attempts = user.failed_login_attempts + 1
    let should_lock = leb w.login_max_attempts attempts
    let locked_until = if should_lock then some (now + w.login_lockout_minutes * 60000) else none
    Users.record_failed_login db user.id attempts locked_until
    Audits.log db (some user.id) "auth.login_failed" warn req
        (("attempts", number attempts) ∷ ("willLock", flag should_lock) ∷ [])
    when should_lock (do
      Audits.log db (some user.id) "auth.login_locked" critical req []
      Audits.event db (some user.id) "account_locked" critical req
          (("attempts", number attempts) ∷ []))
    throw invalid_credentials

  unfoldable pub check_password : User → String → RequestContext → Action (Unit {0})
  check_password user password req =
      if verify_password w password (get_or user.password_hash "")
      then pure tt
      else fail_password user req

  unfoldable pub sign_in : User → Bool → RequestContext → Action LoginResponse
  sign_in user remember_me req = do
    tokens ←
        issue_tokens db w user (record { ip = get_client_ip req; user_agent = get_user_agent req })
          remember_me
    Audits.log db (some user.id) "auth.login_success" info req
        (("rememberMe", flag remember_me) ∷ [])
    pure (signed_in (record { user = to_auth_user user; tokens = tokens }))

  unfoldable pub challenge_second_factor : User → Bool → RequestContext → Action LoginResponse
  challenge_second_factor user remember_me req = do
    challenge ← issue_login_challenge db w user.id remember_me
    Audits.log db (some user.id) "mfa.challenge_issued" info req
        (("method", text (method_name challenge.method)) ∷ [])
    pure (mfa_required challenge)

  -- After the password: the second factor, unless the device is trusted.
  unfoldable pub finish_password : User → Bool → RequestContext → Action LoginResponse
  finish_password user remember_me req =
      if user.mfa_enabled
      then (do
        trusted ← is_device_trusted db w user.id req
        if trusted
            then sign_in user remember_me req
            else challenge_second_factor user remember_me req)
      else sign_in user remember_me req

  unfoldable pub login_user : User → LoginInput → RequestContext → Action LoginResponse
  login_user user input req = do
    require (not (same_status user.status UserStatus.disabled)) account_disabled
    check_lock user req
    check_verified user req
    check_password user input.password req
    Users.mark_login_success db user.id (get_client_ip req)
    finish_password user input.remember_me req

  -- `verifyDummy` only takes time.
  unfoldable pub login_unknown : String → RequestContext → Action LoginResponse
  login_unknown email req = do
    Audits.log db none "auth.login_failed" warn req
        (("email", text email) ∷ ("reason", text "unknown_user") ∷ [])
    throw invalid_credentials

  unfoldable pub login : LoginInput → RequestContext → Action LoginResponse
  login input req = do
    found ← Users.find_by_email db input.email
    elim found [ none ↦ login_unknown input.email req | some user ↦ login_user user input req ]
