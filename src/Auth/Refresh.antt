-- ===== src/Auth/Refresh.antt =====
-- auth.service.ts: rotating the refresh token of a session.
pub mod Rotation
pub mod Reuse
use secure_auth_x_pro.Prelude.{ℕ, ◌+◌, ◌-◌, ◌/◌, max, not, some, [], String, ltb, if◌then◌else◌}
use secure_auth_x_pro.Schema.{Session, User, UserStatus, same_status, info, warn, critical}
use secure_auth_x_pro.Prisma.{Prisma}
use secure_auth_x_pro.World.{World}
use secure_auth_x_pro.Http.{RequestContext, safe_equal}
use secure_auth_x_pro.Exec.{
  Action, Failure, app, unauthorized, pure, throw, gets, draw, require, or_throw, ◌>>=◌, ◌>>◌,
}
use secure_auth_x_pro.Repositories.Sessions
use secure_auth_x_pro.Repositories.Audits
use secure_auth_x_pro.Jwt.{create_access_token, create_refresh_token, verify_refresh_token}
use secure_auth_x_pro.Auth.Responses.{SignedIn, to_auth_user}
use secure_auth_x_pro.Auth.Login.{account_disabled}

abbrev pub refresh_invalid : Failure
refresh_invalid = app (unauthorized "Invalid or expired refresh token.")

abbrev pub session_inactive : Failure
session_inactive = app (unauthorized "Session is no longer active.")

abbrev pub session_reused : Failure
session_reused = app (unauthorized "Session has been revoked due to a security event.")

abbrev pub session_expired : Failure
session_expired = app (unauthorized "Session has expired. Please sign in again.")

-- `Math.max(1, Math.ceil((expiresAt - now) / 1000))`; not called after the expiry.
abbrev pub remaining_ttl : ℕ → ℕ → ℕ
remaining_ttl expires_at now = max 1 ((expires_at - now + 999) / 1000)

module _ (db : Prisma) (w : World) where
  -- The session id was presented with another token: the session ends.
  unfoldable pub end_reused : {A : Type 0} → Session → User → RequestContext → Action A
  end_reused session user req = do
    Sessions.revoke db session.id
    Audits.event db (some user.id) "refresh_token_reuse" critical req []
    Audits.log db (some user.id) "auth.token_reuse" critical req []
    throw session_reused

  unfoldable pub check_reuse : Session → User → String → RequestContext → Action (Unit {0})
  check_reuse session user token req =
      if safe_equal session.refresh_token_hash (w.sha256 token)
      then pure tt
      else end_reused session user req

  unfoldable pub end_expired : {A : Type 0} → Session → User → RequestContext → Action A
  end_expired session user req = do
    Sessions.mark_expired db session.id
    Audits.log db (some user.id) "session.expired" warn req []
    throw session_expired

  unfoldable pub check_expiry : Session → User → RequestContext → Action (Unit {0})
  check_expiry session user req = do
    now ← gets (λ s. s.now)
    if ltb session.expires_at now then end_expired session user req else pure tt

  unfoldable pub rotate : Session → User → RequestContext → Action SignedIn
  rotate session user req = do
    now ← gets (λ s. s.now)
    let ttl = remaining_ttl session.expires_at now
    nonce ← draw w.random_uuid
    let refresh_token = create_refresh_token w user.id session.id (some ttl) nonce now
    let access_token =
        create_access_token w
          (record {
            user_id = user.id;
            email = user.email;
            role = user.role;
            session_id = session.id;
          })
          now
    csrf_token ← draw w.random_hex
    Sessions.rotate_token db session.id (w.sha256 refresh_token) session.expires_at
    Audits.log db (some user.id) "auth.refresh_rotated" info req []
    pure (record {
      user = to_auth_user user;
      tokens = record {
        access_token = access_token;
        refresh_token = refresh_token;
        csrf_token = csrf_token;
        expires_in = ttl;
        token_type = "Bearer";
      };
    })

  unfoldable pub refresh : String → RequestContext → Action SignedIn
  refresh token req = do
    now ← gets (λ s. s.now)
    payload ← or_throw (verify_refresh_token w token now) refresh_invalid
    found ← Sessions.find_active_by_id db payload.jti
    (session, user) ← or_throw found session_inactive
    check_reuse session user token req
    check_expiry session user req
    require (not (same_status user.status UserStatus.disabled)) account_disabled
    rotate session user req
