-- ===== src/Api/Routes.antt =====
-- apps/api/src/routes/v1: each route with its middlewares, in their order, from the request to the
-- response. A body is given as the fields that the controller reads, with the issues that the
-- schemas of packages/validation report on it (zod is not part of the repository).
pub mod Refusals
pub mod Protection
use secure_auth_x_pro.Prelude.{ℕ, Bool, Option, none, some, List, [], ◌∷◌, String}
use secure_auth_x_pro.Schema.{Store, User, UserRole, UserStatus}
use secure_auth_x_pro.Prisma.{Prisma}
use secure_auth_x_pro.World.{World}
use secure_auth_x_pro.Http.{RequestContext, get_client_ip}
use secure_auth_x_pro.Exec.{Action, Failure, FieldIssue, ◌>>=◌, ◌>>◌}
use secure_auth_x_pro.RateLimit.{Buckets, Verdict, limit_request}
use secure_auth_x_pro.Auth.Responses.{SignedIn, LoginResponse, MfaLoginCompletion}
use secure_auth_x_pro.Auth.Registration.{
  RegisterInput, RegisterResponse, VerifyEmailResponse, ResendResponse,
}
use secure_auth_x_pro.Auth.Login.{LoginInput}
use secure_auth_x_pro.Auth.Logout.{LoggedOut}
use secure_auth_x_pro.Mfa.WebAuthn.{CeremonyOptions, Assertion}
use secure_auth_x_pro.Mfa.Enrollment.{Registration}
use secure_auth_x_pro.Mfa.Settings.{MfaStatus}
use secure_auth_x_pro.Api.Environment.{ApiEnv}
use secure_auth_x_pro.Api.Requests.{HttpRequest, to_request_context}
use secure_auth_x_pro.Api.Guards.{
  AuthenticatedUser, authenticate, require_csrf, require_admin, require_mfa_challenge,
}
use secure_auth_x_pro.Api.Replies.{Reply, HttpResponse, validate}
use secure_auth_x_pro.Api.Pipeline.{Server, run, run_auth, run_mfa}
use secure_auth_x_pro.Api.Controllers.Auth
use secure_auth_x_pro.Api.Controllers.Mfa
use secure_auth_x_pro.Api.Controllers.Admin
use secure_auth_x_pro.Api.Controllers.Security
use secure_auth_x_pro.Admin.Listing.{AdminUsersListResponse}
use secure_auth_x_pro.Security.{ListResponse, AuditLogEntry, SecurityEventEntry}

abbrev Served : Type 0 → Type 0
Served A = Server → HttpResponse A × Server

module _ (db : Prisma) (w : World) (env : ApiEnv) (message_of : Failure → String) where
  -- createAuthRouter
  module _ (req : HttpRequest) where
    unfoldable pub post_register : List FieldIssue → RegisterInput → Served RegisterResponse
    post_register issues body =
        run_auth w env message_of req
          (validate issues >> Auth.register db w env body (to_request_context req))

    unfoldable pub post_login : List FieldIssue → LoginInput → Served LoginResponse
    post_login issues body =
        run_auth w env message_of req
          (validate issues >> Auth.login db w env body (to_request_context req))

    unfoldable pub post_refresh : Option String → Served SignedIn
    post_refresh body_token =
        let ctx = to_request_context req in
        run w env message_of req (require_csrf ctx >> Auth.refresh db w env body_token ctx)

    unfoldable pub post_verify_email : List FieldIssue → String → Served VerifyEmailResponse
    post_verify_email issues token =
        run_auth w env message_of req
          (validate issues >> Auth.verify_email db w env token (to_request_context req))

    unfoldable pub post_resend_verification : List FieldIssue → String → Served ResendResponse
    post_resend_verification issues email =
        run_auth w env message_of req
          (validate issues >> Auth.resend_verification db w env email (to_request_context req))

    unfoldable pub post_logout : Served LoggedOut
    post_logout = run w env message_of req (Auth.logout db w env (to_request_context req))

    -- What stands behind `authRequired`.
    unfoldable pub authorized :
        {A : Type 0} → (AuthenticatedUser → RequestContext → Action A) → Action A
    authorized k = let ctx = to_request_context req in authenticate db w ctx >>= λ user. k user ctx

    unfoldable pub get_me : Served AuthenticatedUser
    get_me = run w env message_of req (authorized (λ user ctx. Auth.me db w env user))

    -- createMfaRouter. What stands behind `mfaChallenge`.
    unfoldable pub challenged : {A : Type 0} → String → (RequestContext → Action A) → Action A
    challenged challenge_id k =
        let ctx = to_request_context req in require_mfa_challenge (some challenge_id) ctx >> k ctx

    unfoldable pub post_verify_totp :
        List FieldIssue → String → String → Bool → Served MfaLoginCompletion
    post_verify_totp issues challenge_id code remember_device = run_mfa w env message_of req (
        challenged challenge_id (λ ctx.
          validate issues >> Mfa.verify_totp db w env challenge_id code remember_device ctx))

    unfoldable pub post_verify_recovery :
        List FieldIssue → String → String → Served MfaLoginCompletion
    post_verify_recovery issues challenge_id code = run_mfa w env message_of req (
        challenged challenge_id
          (λ ctx. validate issues >> Mfa.verify_recovery db w env challenge_id code ctx))

    unfoldable pub post_start_webauthn_verify : List FieldIssue → String → Served CeremonyOptions
    post_start_webauthn_verify issues challenge_id = run_mfa w env message_of req (
        challenged challenge_id
          (λ ctx. validate issues >> Mfa.begin_webauthn_verify db w env challenge_id))

    unfoldable pub post_verify_webauthn :
        List FieldIssue → String → Assertion → Bool → Served MfaLoginCompletion
    post_verify_webauthn issues challenge_id credential remember_device =
        run_mfa w env message_of req (
          challenged challenge_id (λ ctx.
            validate issues
            >> Mfa.verify_webauthn db w env challenge_id credential remember_device ctx))

    unfoldable pub get_mfa_status : Served MfaStatus
    get_mfa_status = run w env message_of req (authorized (λ user ctx. Mfa.status db w env user.id))

    unfoldable pub post_start_totp : Served String
    post_start_totp =
        run w env message_of req (authorized (λ user ctx. Mfa.start_totp db w env user.id))

    unfoldable pub post_verify_totp_enrollment : List FieldIssue → String → Served (List String)
    post_verify_totp_enrollment issues code = run w env message_of req (
        authorized
          (λ user ctx. validate issues >> Mfa.verify_totp_enrollment db w env user.id code ctx))

    unfoldable pub post_start_webauthn : List FieldIssue → Served (String × CeremonyOptions)
    post_start_webauthn issues =
        run w env message_of req
          (authorized (λ user ctx. validate issues >> Mfa.start_webauthn db w env user.id))

    unfoldable pub post_verify_webauthn_enrollment :
        List FieldIssue → String → Option String → Registration → Served (List String)
    post_verify_webauthn_enrollment issues challenge_id device_name registration =
        run w env message_of req (
          authorized (λ user ctx.
            validate issues
            >> Mfa.verify_webauthn_enrollment db w env user.id challenge_id device_name registration
                ctx))

    unfoldable pub post_remove_webauthn : List FieldIssue → String → Served (Unit {0})
    post_remove_webauthn issues credential_id = run w env message_of req (
        authorized
          (λ user ctx. validate issues >> Mfa.remove_webauthn db w env user.id credential_id ctx))

    unfoldable pub post_regenerate_recovery_codes : List FieldIssue → String → Served (List String)
    post_regenerate_recovery_codes issues password = run w env message_of req (
        authorized (λ user ctx.
          validate issues >> Mfa.regenerate_recovery_codes db w env user.id password ctx))

    unfoldable pub post_disable_mfa : List FieldIssue → String → Served (Unit {0})
    post_disable_mfa issues password =
        run w env message_of req
          (authorized (λ user ctx. validate issues >> Mfa.disable db w env user.id password ctx))

    -- createSecurityRouter
    unfoldable pub get_audit_logs :
        List FieldIssue → Security.RawQuery → Served (ListResponse AuditLogEntry)
    get_audit_logs issues q =
        run w env message_of req
          (authorized (λ user ctx. validate issues >> Security.list_audit_logs db user.id q))

    unfoldable pub get_security_events :
        List FieldIssue → Security.RawQuery → Served (ListResponse SecurityEventEntry)
    get_security_events issues q =
        run w env message_of req
          (authorized (λ user ctx. validate issues >> Security.list_security_events db user.id q))

    -- createAdminRouter: every route stands behind `authRequired` and `requireAdmin`.
    unfoldable pub administered :
        {A : Type 0} → (AuthenticatedUser → RequestContext → Action A) → Action A
    administered k = authorized (λ user ctx. require_admin (some user) >> k user ctx)

    unfoldable pub get_users : List FieldIssue → Admin.RawUsersQuery → Served AdminUsersListResponse
    get_users issues q =
        run w env message_of req
          (administered (λ user ctx. validate issues >> Admin.list_users db q))

    unfoldable pub patch_user_role : List FieldIssue → String → UserRole → Served User
    patch_user_role issues id role =
        run w env message_of req
          (administered (λ user ctx. validate issues >> Admin.set_user_role db user.id id role ctx))

    unfoldable pub patch_user_status : List FieldIssue → String → UserStatus → Served User
    patch_user_status issues id status = run w env message_of req (
        administered
          (λ user ctx. validate issues >> Admin.set_user_status db user.id id status ctx))
