-- ===== src/Api/Routes/Protection.antt =====
-- What the routes behind `authRequired` and `requireAdmin` do for whom.
use secure_auth_x_pro.Prelude.{◌≡◌, true, Option, List, String, inl, inr, ◌⊎◌}
use secure_auth_x_pro.Schema.{UserRole, UserStatus, same_role}
use secure_auth_x_pro.Prisma.{Prisma, IsPrisma}
use secure_auth_x_pro.World.{World}
use secure_auth_x_pro.Http.{RequestContext}
use secure_auth_x_pro.Exec.{Failure, FieldIssue, Action, ◌>>◌}
use secure_auth_x_pro.Mfa.Enrollment.{Registration}
use secure_auth_x_pro.Api.Environment.{ApiEnv}
use secure_auth_x_pro.Api.Requests.{HttpRequest}
use secure_auth_x_pro.Api.Guards.Access.{Authorized}
use secure_auth_x_pro.Api.Replies.{Reply, HttpResponse, validate}
use secure_auth_x_pro.Api.Pipeline.{Server, run}
use secure_auth_x_pro.Api.Pipeline.Failures.{received}
use secure_auth_x_pro.Api.Controllers.Mfa
use secure_auth_x_pro.Api.Controllers.Admin
use secure_auth_x_pro.Api.Controllers.Security
use secure_auth_x_pro.Api.Routes.{
  authorized, administered, get_users, get_audit_logs, get_security_events, patch_user_role,
  patch_user_status, get_mfa_status, post_start_totp, post_verify_totp_enrollment,
  post_start_webauthn, post_verify_webauthn_enrollment, post_remove_webauthn,
  post_regenerate_recovery_codes, post_disable_mfa,
}
use secure_auth_x_pro.Api.Routes.Refusals.{
  ctx, IsDenied, authorized_cases, administered_cases, run-IsDenied, run_same,
}

module _ {db : Prisma} (laws : IsPrisma db) (w : World) (env : ApiEnv) (m : Failure → String)
    (req : HttpRequest) where
  -- A response that is refused, or is that of an action for the user of a token that passes.
  abbrev pub AsUser :
      {A : Type 0}
      → HttpResponse A × Server
      → (String → RequestContext → Action (Reply A))
      → Server
      → Type 0
  AsUser out act v =
      IsDenied laws w env m req out v
      ⊎ ((c : Authorized w (ctx laws w env m req) (received req v.store)) × (out
            ≡ run w env m req (act c.user.id (ctx laws w env m req)) v))

  -- Here that user is also an administrator.
  abbrev pub AsAdmin :
      {A : Type 0}
      → HttpResponse A × Server
      → (String → RequestContext → Action (Reply A))
      → Server
      → Type 0
  AsAdmin out act v =
      IsDenied laws w env m req out v
      ⊎ ((c : Authorized w (ctx laws w env m req) (received req v.store)) × (same_role c.user.role
              UserRole.admin
            ≡ true)
          × (out ≡ run w env m req (act c.user.id (ctx laws w env m req)) v))

  authorized-AsUser :
      {A : Type 0} (act : String → RequestContext → Action (Reply A)) (v : Server)
      → AsUser (run w env m req (authorized db w env m req (λ user c. act user.id c)) v) act v
  authorized-AsUser act v =
      elim (authorized_cases laws w env m req (λ user c. act user.id c) (received req v.store)) [
        | inl denied ↦ inl (
            run-IsDenied laws w env m req (authorized db w env m req (λ user c. act user.id c)) v
              denied)
        | inr (c, runs) ↦ inr (
          c,
          run_same laws w env m req (authorized db w env m req (λ user c. act user.id c))
              (act c.user.id (ctx laws w env m req)) v runs,
        )
      ]

  administered-AsAdmin :
      {A : Type 0} (act : String → RequestContext → Action (Reply A)) (v : Server)
      → AsAdmin (run w env m req (administered db w env m req (λ user c. act user.id c)) v) act v
  administered-AsAdmin act v =
      elim (administered_cases laws w env m req (λ user c. act user.id c) (received req v.store)) [
        | inl denied ↦ inl (
            run-IsDenied laws w env m req (administered db w env m req (λ user c. act user.id c)) v
              denied)
        | inr (c, admin, runs) ↦ inr (
          c,
          admin,
          run_same laws w env m req (administered db w env m req (λ user c. act user.id c))
              (act c.user.id (ctx laws w env m req)) v runs,
        )
      ]

  -- A request to list the accounts, or to change the role or the status of one, is refused with 401,
  -- 403 or 429 and writes nothing but the count of random values for its id, or it carries an access
  -- token of an administrator who is not disabled, with a live session: and then the response and the
  -- store are those of the call made in that administrator's name.
  pub admin_routes-AsAdmin :
      (issues : List FieldIssue) (q : Admin.RawUsersQuery) (id : String) (role : UserRole)
      (status : UserStatus) (v : Server)
      → AsAdmin
          (get_users db w env m req issues q v)
          (λ actor c. validate issues >> Admin.list_users db q)
          v
        × AsAdmin
            (patch_user_role db w env m req issues id role v)
            (λ actor c. validate issues >> Admin.set_user_role db actor id role c)
            v
        × AsAdmin
            (patch_user_status db w env m req issues id status v)
            (λ actor c. validate issues >> Admin.set_user_status db actor id status c)
            v
  unfolding get_users patch_user_role patch_user_status
  admin_routes-AsAdmin issues q id role status v = (
    administered-AsAdmin (λ actor c. validate issues >> Admin.list_users db q) v,
    administered-AsAdmin (λ actor c. validate issues >> Admin.set_user_role db actor id role c) v,
    administered-AsAdmin (λ actor c. validate issues >> Admin.set_user_status db actor id status c)
        v,
  )

  -- The routes that read or change the second factors of an account, or list its records, do so for the
  -- user of an access token that passes, or refuse with 401, 403 or 429 and write nothing but the count
  -- of random values for the id of the request.
  pub own_routes-AsUser :
      (issues : List FieldIssue) (text : String) (q : Security.RawQuery) (name : Option String)
      (registration : Registration) (v : Server)
      → AsUser (get_mfa_status db w env m req v) (λ id c. Mfa.status db w env id) v
        × AsUser (post_start_totp db w env m req v) (λ id c. Mfa.start_totp db w env id) v
        × AsUser
            (post_verify_totp_enrollment db w env m req issues text v)
            (λ id c. validate issues >> Mfa.verify_totp_enrollment db w env id text c)
            v
        × AsUser
            (post_start_webauthn db w env m req issues v)
            (λ id c. validate issues >> Mfa.start_webauthn db w env id)
            v
        × AsUser
            (post_verify_webauthn_enrollment db w env m req issues text name registration v)
            (λ id c.
              validate issues
              >> Mfa.verify_webauthn_enrollment db w env id text name registration c)
            v
        × AsUser
            (post_remove_webauthn db w env m req issues text v)
            (λ id c. validate issues >> Mfa.remove_webauthn db w env id text c)
            v
        × AsUser
            (post_regenerate_recovery_codes db w env m req issues text v)
            (λ id c. validate issues >> Mfa.regenerate_recovery_codes db w env id text c)
            v
        × AsUser
            (post_disable_mfa db w env m req issues text v)
            (λ id c. validate issues >> Mfa.disable db w env id text c)
            v
        × AsUser
            (get_audit_logs db w env m req issues q v)
            (λ id c. validate issues >> Security.list_audit_logs db id q)
            v
        × AsUser
            (get_security_events db w env m req issues q v)
            (λ id c. validate issues >> Security.list_security_events db id q)
            v
  unfolding get_mfa_status post_start_totp post_verify_totp_enrollment post_start_webauthn
      post_verify_webauthn_enrollment post_remove_webauthn post_regenerate_recovery_codes
      post_disable_mfa get_audit_logs get_security_events
  own_routes-AsUser issues text q name registration v = (
    authorized-AsUser (λ id c. Mfa.status db w env id) v,
    authorized-AsUser (λ id c. Mfa.start_totp db w env id) v,
    authorized-AsUser (λ id c. validate issues >> Mfa.verify_totp_enrollment db w env id text c) v,
    authorized-AsUser (λ id c. validate issues >> Mfa.start_webauthn db w env id) v,
    authorized-AsUser
        (λ id c.
          validate issues >> Mfa.verify_webauthn_enrollment db w env id text name registration c)
        v,
    authorized-AsUser (λ id c. validate issues >> Mfa.remove_webauthn db w env id text c) v,
    authorized-AsUser (λ id c. validate issues >> Mfa.regenerate_recovery_codes db w env id text c)
        v,
    authorized-AsUser (λ id c. validate issues >> Mfa.disable db w env id text c) v,
    authorized-AsUser (λ id c. validate issues >> Security.list_audit_logs db id q) v,
    authorized-AsUser (λ id c. validate issues >> Security.list_security_events db id q) v,
  )
