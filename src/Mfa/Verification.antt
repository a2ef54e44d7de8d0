-- ===== src/Mfa/Verification.antt =====
-- mfa.service.ts: completing a login with a TOTP code or a recovery code.
pub mod Recovery
pub mod Code
use secure_auth_x_pro.Prelude.{ℕ, Bool, [], ◌∷◌, Option, none, some, String, if◌then◌else◌}
use secure_auth_x_pro.Schema.{info, warn, text}
use secure_auth_x_pro.Prisma.{Prisma}
use secure_auth_x_pro.World.{World}
use secure_auth_x_pro.Http.{RequestContext}
use secure_auth_x_pro.Exec.{
  Action, Failure, app, library_error, unauthorized, internal, pure, throw, gets, or_throw,
  or_reject, ◌>>=◌, ◌>>◌,
}
use secure_auth_x_pro.Repositories.Audits
use secure_auth_x_pro.Repositories.Mfa
use secure_auth_x_pro.Cache.{delete_challenge}
use secure_auth_x_pro.Cipher.{decrypt}
use secure_auth_x_pro.Totp.{verify_totp}
use secure_auth_x_pro.Mfa.Challenges.{get_challenge_user}
use secure_auth_x_pro.Mfa.Devices.{trust_if}
use secure_auth_x_pro.Mfa.RecoveryCodes.{code_hash}

-- MFA_CONFIG.TOTP_DRIFT_STEPS
abbrev pub totp_drift_steps : ℕ
totp_drift_steps = 1

-- What a completed challenge yields.
pub record VerifiedLogin : Type 0 where
  pub user_id : String
  pub device_token : Option String

module _ (db : Prisma) (w : World) where
  -- `audits.log(userId, MFA_LOGIN_FAILED, 'WARN', req, { method, reason })`, then `throw`
  unfoldable pub reject_login :
      {A : Type 0} → String → RequestContext → String → String → Failure → Action A
  reject_login user_id req method reason error = do
    Audits.log db (some user_id) "mfa.login_failed" warn req
        (("method", text method) ∷ ("reason", text reason) ∷ [])
    throw error

  unfoldable pub verify_totp_login : String → String → Bool → RequestContext → Action VerifiedLogin
  verify_totp_login challenge_id code remember_device req = do
    user_id ← get_challenge_user challenge_id
    found ← Mfa.get_totp_secret db user_id
    row ← or_reject found (
        reject_login user_id req "totp" "no_secret"
          (app (unauthorized "Invalid authentication code.")))
    secret ← or_reject (decrypt w row.secret) (
        reject_login user_id req "totp" "decrypt_failed"
          (app (internal "Could not verify the authentication code.")))
    now ← gets (λ s. s.now)
    valid ← or_throw (verify_totp w secret code totp_drift_steps now) library_error
    or_reject (if valid then some tt else none) (
        reject_login user_id req "totp" "invalid_code"
          (app (unauthorized "Invalid authentication code.")))
    delete_challenge challenge_id
    device_token ← trust_if db w remember_device user_id req
    pure (record { user_id = user_id; device_token = device_token })

  unfoldable pub verify_recovery_login : String → String → RequestContext → Action String
  verify_recovery_login challenge_id code req = do
    user_id ← get_challenge_user challenge_id
    consumed ← Mfa.consume_recovery_code db user_id (code_hash w code)
    or_reject (if consumed then some tt else none) (
        reject_login user_id req "recovery" "invalid_code"
          (app (unauthorized "Invalid recovery code.")))
    delete_challenge challenge_id
    Audits.log db (some user_id) "mfa.recovery_code_used" info req []
    pure user_id
