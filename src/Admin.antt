-- ===== src/Admin.antt =====
-- apps/api/src/services/admin.service.ts: changing a user's role and status.
pub mod Transitions
pub mod Closing
pub mod Listing
use secure_auth_x_pro.Prelude.{
  ℕ, Bool, true, false, not, ◌&&◌, ◌||◌, Option, none, some, List, [], ◌∷◌, String, ◌==◌,
  if◌then◌else◌,
}
use secure_auth_x_pro.Schema.{
  User, UserRole, UserStatus, Severity, info, warn, same_role, same_status, text,
}
use secure_auth_x_pro.Prisma.{Prisma}
use secure_auth_x_pro.Http.{RequestContext}
use secure_auth_x_pro.Exec.{
  Action, AppError, app, bad_request, forbidden, not_found, pure, require, or_throw, when, ◌>>=◌,
  ◌>>◌,
}
use secure_auth_x_pro.Repositories.Users
use secure_auth_x_pro.Repositories.Sessions
use secure_auth_x_pro.Repositories.Audits

-- ALLOWED_TRANSITIONS
unfoldable pub allowed_transitions : UserStatus → List UserStatus
allowed_transitions UserStatus.active =
    UserStatus.locked ∷ UserStatus.disabled ∷ UserStatus.pending_verification ∷ []
allowed_transitions UserStatus.locked = UserStatus.active ∷ UserStatus.disabled ∷ []
allowed_transitions UserStatus.disabled = UserStatus.active ∷ []
allowed_transitions UserStatus.pending_verification = UserStatus.active ∷ UserStatus.disabled ∷ []

-- `allowed.includes(status)`
unfoldable pub includes : List UserStatus → UserStatus → Bool
includes [] status = false
includes (x ∷ xs) status = same_status x status || includes xs status

-- `new Date('2999-12-31T23:59:59Z')`, in milliseconds
abbrev pub far_future : ℕ
far_future = 32503679999000

-- The data of the update: a lock that does not end by itself, or none.
abbrev pub status_update : UserStatus → User → User
status_update UserStatus.locked u = record u {
  status = UserStatus.locked;
  locked_until = some far_future;
}
status_update status u = record u { status = status; locked_until = none }

abbrev pub ends_sessions : UserStatus → Bool
ends_sessions status =
    same_status status UserStatus.disabled || same_status status UserStatus.locked

abbrev pub status_action : UserStatus → String
status_action UserStatus.disabled = "admin.user_deactivated"
status_action UserStatus.active = "admin.user_activated"
status_action _ = "admin.user_role_changed"

abbrev pub status_severity : UserStatus → Severity
status_severity UserStatus.disabled = warn
status_severity _ = info

abbrev pub role_name : UserRole → String
role_name UserRole.user = "USER"
role_name UserRole.admin = "ADMIN"

abbrev pub status_name : UserStatus → String
status_name UserStatus.active = "ACTIVE"
status_name UserStatus.locked = "LOCKED"
status_name UserStatus.disabled = "DISABLED"
status_name UserStatus.pending_verification = "PENDING_VERIFICATION"

abbrev pub user_not_found : AppError
user_not_found = not_found "User not found."

abbrev pub own_role : AppError
own_role = forbidden "You cannot change your own role."

abbrev pub own_account : AppError
own_account = forbidden "You cannot disable your own account."

-- The message names both states in the source; the error is a bad request.
abbrev pub no_transition : AppError
no_transition = bad_request "Cannot transition user."

module _ (db : Prisma) where
  -- The returned row is the updated one.
  unfoldable pub set_user_role : String → String → UserRole → RequestContext → Action User
  set_user_role actor_id user_id role req = do
    found ← Users.find_by_id db user_id
    user ← or_throw found (app user_not_found)
    require (not ((user.id == actor_id) && not (same_role role user.role))) own_role
    updated ← Users.set_role db user_id role
    Audits.log db (some actor_id) "admin.user_role_changed" info req (
        ("targetUserId", text user_id)
        ∷ ("previousRole", text (role_name user.role))
        ∷ ("newRole", text (role_name role))
        ∷ [])
    pure updated

  unfoldable pub set_user_status : String → String → UserStatus → RequestContext → Action User
  set_user_status actor_id user_id status req = do
    found ← Users.find_by_id db user_id
    user ← or_throw found (app user_not_found)
    require (not ((user.id == actor_id) && same_status status UserStatus.disabled)) own_account
    require
        (not (
          not (same_status status user.status)
          && not (includes (allowed_transitions user.status) status)))
        no_transition
    updated ← Users.update db user_id (status_update status)
    when (ends_sessions status) (Sessions.revoke_all_for_user db user_id none)
    Audits.log db (some actor_id) (status_action status) (status_severity status) req (
        ("targetUserId", text user_id)
        ∷ ("previousStatus", text (status_name user.status))
        ∷ ("newStatus", text (status_name status))
        ∷ [])
    pure updated
