-- ===== src/Auth/Logout.antt =====
-- auth.service.ts: logout.
pub mod Ending
use secure_auth_x_pro.Prelude.{ℕ, Bool, Option, none, some, [], String, lookup, is_some}
use secure_auth_x_pro.Schema.{JwtPayload, info}
use secure_auth_x_pro.Prisma.{Prisma}
use secure_auth_x_pro.World.{World}
use secure_auth_x_pro.Http.{RequestContext, non_empty, resolve_access_token, refresh_token_cookie}
use secure_auth_x_pro.Exec.{Action, pure, gets, ◌>>=◌, ◌>>◌}
use secure_auth_x_pro.Repositories.Sessions
use secure_auth_x_pro.Repositories.Audits
use secure_auth_x_pro.Jwt.{verify_access_token, verify_refresh_token}

pub record LoggedOut : Type 0 where
  pub revoked : Bool
  pub user_id : Option String

-- The variables `sessionId` and `userId`.
pub record Target : Type 0 where
  pub session_id : Option String
  pub user_id : Option String

-- `payload?.jti ?? null`, `payload?.sub ?? null`
abbrev pub refresh_target : Option JwtPayload → Target
refresh_target none = record { session_id = none; user_id = none }
refresh_target (some p) = record { session_id = p.jti; user_id = some p.sub }

abbrev pub access_target : Option JwtPayload → Target
access_target none = record { session_id = none; user_id = none }
access_target (some p) = record { session_id = p.session_id; user_id = some p.sub }

module _ (w : World) where
  -- From the refresh cookie, where it is not empty.
  unfoldable pub from_refresh : Option String → ℕ → Target
  from_refresh none now = record { session_id = none; user_id = none }
  from_refresh (some token) now = refresh_target (verify_refresh_token w token now)

  -- From the access token, where the cookie gave no session.
  unfoldable pub from_access : Target → Option String → ℕ → Target
  from_access target none now = target
  from_access target (some token) now = elim (non_empty target.session_id) [
    | some _ ↦ target
    | none ↦ access_target (verify_access_token w token now)
  ]

  unfoldable pub logout_target : RequestContext → ℕ → Target
  unfolding from_refresh from_access
  logout_target req now =
      from_access (from_refresh (non_empty (lookup refresh_token_cookie req.cookies)) now)
        (resolve_access_token req) now

module _ (db : Prisma) where
  unfoldable pub audit_logout : Option String → RequestContext → Action (Unit {0})
  audit_logout none req = pure tt
  audit_logout (some user_id) req = Audits.log db (some user_id) "auth.logout" info req []

  unfoldable pub end_session : Option String → Option String → RequestContext → Action (Unit {0})
  unfolding audit_logout
  end_session none user_id req = pure tt
  end_session (some session_id) user_id req = do
    Sessions.revoke db session_id
    audit_logout (non_empty user_id) req

module _ (db : Prisma) (w : World) where
  unfoldable pub logout : RequestContext → Action LoggedOut
  logout req = do
    target ← gets (λ s. logout_target w req s.now)
    end_session db (non_empty target.session_id) target.user_id req
    pure (record { revoked = is_some target.session_id; user_id = target.user_id })
