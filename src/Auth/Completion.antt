-- ===== src/Auth/Completion.antt =====
-- auth.service.ts: the second step of a login that was challenged.
pub mod SecondFactor
use secure_auth_x_pro.Prelude.{Bool, false, Option, none, some, [], ◌∷◌, String, is_some}
use secure_auth_x_pro.Schema.{info, flag}
use secure_auth_x_pro.Prisma.{Prisma}
use secure_auth_x_pro.World.{World}
use secure_auth_x_pro.Http.{RequestContext, get_client_ip, get_user_agent}
use secure_auth_x_pro.Exec.{Action, pure, or_throw, ◌>>=◌, ◌>>◌}
use secure_auth_x_pro.Repositories.Users
use secure_auth_x_pro.Repositories.Audits
use secure_auth_x_pro.Mfa.Challenges.{account_gone}
use secure_auth_x_pro.Mfa.Verification.{verify_totp_login, verify_recovery_login}
use secure_auth_x_pro.Mfa.WebAuthn.{
  Assertion, CeremonyOptions, begin_webauthn_login, verify_webauthn_login,
}
use secure_auth_x_pro.Auth.Responses.{MfaLoginCompletion, to_auth_user}
use secure_auth_x_pro.Auth.Tokens.{issue_tokens}

module _ (db : Prisma) (w : World) where
  unfoldable pub finish_mfa_login :
      String → RequestContext → Option String → Action MfaLoginCompletion
  finish_mfa_login user_id req device_token = do
    found ← Users.find_by_id db user_id
    user ← or_throw found account_gone
    tokens ←
        issue_tokens db w user (record { ip = get_client_ip req; user_agent = get_user_agent req })
          false
    Audits.log db (some user.id) "mfa.login_verified" info req
        (("rememberDevice", flag (is_some device_token)) ∷ [])
    pure (record { user = to_auth_user user; tokens = tokens; device_token = device_token })

  unfoldable pub complete_mfa_totp :
      String → String → Bool → RequestContext → Action MfaLoginCompletion
  complete_mfa_totp challenge_id code remember_device req = do
    verified ← verify_totp_login db w challenge_id code remember_device req
    finish_mfa_login verified.user_id req verified.device_token

  unfoldable pub complete_mfa_recovery :
      String → String → RequestContext → Action MfaLoginCompletion
  complete_mfa_recovery challenge_id code req = do
    user_id ← verify_recovery_login db w challenge_id code req
    finish_mfa_login user_id req none

  unfoldable pub begin_webauthn_mfa_login : String → Action CeremonyOptions
  begin_webauthn_mfa_login challenge_id = begin_webauthn_login db w challenge_id

  unfoldable pub complete_webauthn_mfa :
      String → Assertion → Bool → RequestContext → Action MfaLoginCompletion
  complete_webauthn_mfa challenge_id credential remember_device req = do
    verified ← verify_webauthn_login db w challenge_id credential remember_device req
    finish_mfa_login verified.user_id req verified.device_token
