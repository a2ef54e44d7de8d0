-- ===== src/Api/Guards.antt =====
-- The middlewares that refuse a request: apps/api/src/middlewares/authenticate.ts with
-- bound-auth.ts, csrf.ts, require-admin.ts and require-mfa-challenge.ts.
pub mod Access
use secure_auth_x_pro.Prelude.{
  ℕ, Bool, true, false, not, ◌&&◌, Option, none, some, String, ◌==◌, is_some, is_empty, ltb, lookup,
  get_or, if◌then◌else◌,
}
use secure_auth_x_pro.Schema.{
  User, UserRole, UserStatus, Session, is_active, same_status, same_role,
}
use secure_auth_x_pro.Prisma.{Prisma}
use secure_auth_x_pro.World.{World}
use secure_auth_x_pro.Http.{
  RequestContext, HeaderValue, as_text, non_empty, safe_equal, resolve_access_token,
}
use secure_auth_x_pro.Exec.{
  Action, Failure, AppError, app, unauthorized, forbidden, ok, pure, throw, gets, require, or_throw,
  ◌>>=◌, ◌>>◌,
}
use secure_auth_x_pro.Jwt.{verify_access_token}
use secure_auth_x_pro.Repositories.Users
use secure_auth_x_pro.Mfa.Devices.{challenge_cookie_matches}
use secure_auth_x_pro.Mfa.Challenges.{challenge_invalid}

-- AuthenticatedUser
pub record AuthenticatedUser : Type 0 where
  pub id : String
  pub email : String
  pub role : UserRole
  pub email_verified : Bool
  pub mfa_enabled : Bool
  pub status : UserStatus

-- What `findUser` selects.
abbrev pub to_authenticated : User → AuthenticatedUser
to_authenticated user = record {
  id = user.id;
  email = user.email;
  role = user.role;
  email_verified = user.email_verified;
  mfa_enabled = user.mfa_enabled;
  status = user.status;
}

abbrev pub missing_token : Failure
missing_token = app (unauthorized "Missing authentication token.")

abbrev pub invalid_token : Failure
invalid_token = app (unauthorized "Invalid or expired token.")

abbrev pub account_gone : Failure
account_gone = app (unauthorized "Account no longer exists.")

abbrev pub disabled_account : AppError
disabled_account = forbidden "Account is disabled."

abbrev pub inactive_session : AppError
inactive_session = unauthorized "Session is no longer active."

-- `id: sessionId`: an id that is undefined does not restrict the query.
abbrev pub has_id : Option String → Session → Bool
has_id none x = true
has_id (some id) x = x.id == id

-- `where: { id, userId, status: 'ACTIVE', expiresAt: { gt: new Date() } }`
abbrev pub usable : Option String → String → ℕ → Session → Bool
usable id user_id now x =
    has_id id x && (x.user_id == user_id) && is_active x.status && ltb now x.expires_at

module _ (db : Prisma) (w : World) where
  unfoldable pub is_session_active : Option String → String → Action Bool
  is_session_active session_id user_id s =
      (ok (is_some (db.find_first Session (usable session_id user_id s.now) s.sessions)), s)

  unfoldable pub authenticate : RequestContext → Action AuthenticatedUser
  authenticate req = do
    token ← or_throw (resolve_access_token req) missing_token
    now ← gets (λ s. s.now)
    payload ← or_throw (verify_access_token w token now) invalid_token
    found ← Users.find_by_id db payload.sub
    active ← is_session_active payload.session_id payload.sub
    user ← or_throw found account_gone
    require (not (same_status user.status UserStatus.disabled)) disabled_account
    require active inactive_session
    pure (to_authenticated user)

abbrev pub csrf_cookie : String
csrf_cookie = "sax_csrf"

abbrev pub csrf_failed : AppError
csrf_failed = forbidden "CSRF token validation failed."

-- Both texts are there and not empty, and they are equal.
abbrev echoed : Option String → Option String → Bool
echoed (some cookie) (some header) = safe_equal cookie header
echoed _ _ = false

unfoldable pub require_csrf : RequestContext → Action (Unit {0})
require_csrf req =
    require
      (echoed (non_empty (lookup csrf_cookie req.cookies))
        (non_empty (as_text (lookup "x-csrf-token" req.headers))))
      csrf_failed

abbrev pub login_required : Failure
login_required = app (unauthorized "Authentication required.")

abbrev pub admins_only : AppError
admins_only = forbidden "Administrator access required."

-- requireAdmin, on the user that `authenticate` has set.
unfoldable pub require_admin : Option AuthenticatedUser → Action (Unit {0})
require_admin found = do
  user ← or_throw found login_required
  require (same_role user.role UserRole.admin) admins_only

-- createRequireMfaChallengeMiddleware: `challengeId` of the body, where it is a text.
unfoldable pub require_mfa_challenge : Option String → RequestContext → Action (Unit {0})
require_mfa_challenge challenge_id req =
    let id = get_or challenge_id "" in
    if not (is_empty id) && challenge_cookie_matches req id
    then pure tt
    else throw challenge_invalid
