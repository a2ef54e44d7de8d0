-- ===== src/Api/Controllers/Mfa.antt =====
-- apps/api/src/controllers/mfa.controller.ts. The authenticated user of the context is an argument.
use secure_auth_x_pro.Prelude.{◌*◌, Bool, Option, none, some, List, [], ◌∷◌, ◌++◌, String, get_or}
use secure_auth_x_pro.Prisma.{Prisma}
use secure_auth_x_pro.World.{World}
use secure_auth_x_pro.Http.{RequestContext, non_empty}
use secure_auth_x_pro.Exec.{Action, pure, ◌>>=◌, ◌>>◌}
use secure_auth_x_pro.Mfa.WebAuthn.{CeremonyOptions, Assertion}
use secure_auth_x_pro.Mfa.Enrollment
use secure_auth_x_pro.Mfa.Enrollment.{Registration}
use secure_auth_x_pro.Mfa.RecoveryCodes
use secure_auth_x_pro.Mfa.Settings
use secure_auth_x_pro.Mfa.Settings.{MfaStatus}
use secure_auth_x_pro.Auth.Responses.{MfaLoginCompletion}
use secure_auth_x_pro.Auth.Completion
use secure_auth_x_pro.Api.Environment.{ApiEnv}
use secure_auth_x_pro.Api.Cookies.{
  SetCookie, auth_cookies, clear_mfa_challenge_cookie, set_trusted_device_cookie,
}
use secure_auth_x_pro.Api.Replies.{Reply, reply}

module _ (db : Prisma) (w : World) (env : ApiEnv) where
  abbrev device_cookies : Option String → List SetCookie
  device_cookies none = []
  device_cookies (some token) =
      set_trusted_device_cookie env token (env.trusted_device_ttl_days * 86400) ∷ []

  -- completeMfaAuthFlow; an empty device token is as good as none.
  unfoldable pub complete_mfa_auth_flow :
      String → String → MfaLoginCompletion → Reply MfaLoginCompletion
  complete_mfa_auth_flow code message completion = reply code message completion (
      clear_mfa_challenge_cookie env
      ∷ (auth_cookies env completion.tokens w.jwt_access_ttl completion.tokens.expires_in
          ++ device_cookies (non_empty completion.device_token)))

  unfoldable pub verify_totp :
      String → String → Bool → RequestContext → Action (Reply MfaLoginCompletion)
  verify_totp challenge_id code remember_device req = do
    completion ← Completion.complete_mfa_totp db w challenge_id code remember_device req
    pure (complete_mfa_auth_flow "MFA_VERIFIED" "Authentication code accepted." completion)

  unfoldable pub verify_recovery :
      String → String → RequestContext → Action (Reply MfaLoginCompletion)
  verify_recovery challenge_id code req = do
    completion ← Completion.complete_mfa_recovery db w challenge_id code req
    pure (complete_mfa_auth_flow "MFA_VERIFIED" "Recovery code accepted." completion)

  unfoldable pub begin_webauthn_verify : String → Action (Reply CeremonyOptions)
  begin_webauthn_verify challenge_id = do
    options ← Completion.begin_webauthn_mfa_login db w challenge_id
    pure (reply "WEBAUTHN_CHALLENGE_READY" "Security key challenge ready." options [])

  unfoldable pub verify_webauthn :
      String → Assertion → Bool → RequestContext → Action (Reply MfaLoginCompletion)
  verify_webauthn challenge_id credential remember_device req = do
    completion ← Completion.complete_webauthn_mfa db w challenge_id credential remember_device req
    pure (complete_mfa_auth_flow "MFA_VERIFIED" "Security key accepted." completion)

  unfoldable pub status : String → Action (Reply MfaStatus)
  status user_id = do
    found ← Settings.get_status db w user_id
    pure (reply "MFA_STATUS" "MFA status." found [])

  unfoldable pub start_totp : String → Action (Reply String)
  start_totp user_id = do
    secret ← Enrollment.begin_totp_enrollment db w user_id
    pure (reply "TOTP_SETUP_STARTED" "Scan the QR code with your authenticator app." secret [])

  unfoldable pub verify_totp_enrollment :
      String → String → RequestContext → Action (Reply (List String))
  verify_totp_enrollment user_id code req = do
    codes ← Enrollment.complete_totp_enrollment db w user_id code req
    pure (reply "TOTP_ENABLED" "Authenticator app enabled. Store your recovery codes." codes [])

  unfoldable pub start_webauthn : String → Action (Reply (String × CeremonyOptions))
  start_webauthn user_id = do
    started ← Enrollment.begin_webauthn_registration db w user_id
    pure (reply "WEBAUTHN_SETUP_STARTED" "Security key registration started." started [])

  unfoldable pub verify_webauthn_enrollment :
      String → String → Option String → Registration → RequestContext → Action (Reply (List String))
  verify_webauthn_enrollment user_id challenge_id device_name registration req = do
    codes ←
        Enrollment.complete_webauthn_registration db w challenge_id user_id (get_or device_name "")
          registration req
    pure (reply "WEBAUTHN_ENABLED" "Security key registered. Store your recovery codes." codes [])

  unfoldable pub regenerate_recovery_codes :
      String → String → RequestContext → Action (Reply (List String))
  regenerate_recovery_codes user_id password req = do
    codes ← RecoveryCodes.regenerate_recovery_codes_with_password db w user_id password req
    pure (reply "RECOVERY_CODES_REGENERATED" "New recovery codes generated." codes [])

  unfoldable pub remove_webauthn : String → String → RequestContext → Action (Reply (Unit {0}))
  remove_webauthn user_id credential_id req = do
    Settings.remove_webauthn_credential db w user_id credential_id req
    pure (reply "WEBAUTHN_REMOVED" "Security key removed." tt [])

  unfoldable pub disable : String → String → RequestContext → Action (Reply (Unit {0}))
  disable user_id password req = do
    Settings.disable db w user_id password req
    pure (
        reply "MFA_DISABLED" "Multi-factor authentication has been disabled." tt
          (clear_mfa_challenge_cookie env ∷ []))
