-- ===== src/Api/Controllers/Admin.antt =====
-- apps/api/src/controllers/admin.controller.ts: the listing of users and the changes of accounts.
use secure_auth_x_pro.Prelude.{Option, [], String}
use secure_auth_x_pro.Schema.{User, UserRole, UserStatus}
use secure_auth_x_pro.Prisma.{Prisma}
use secure_auth_x_pro.Http.{RequestContext}
use secure_auth_x_pro.Exec.{Action, pure, ◌>>=◌}
use secure_auth_x_pro.Admin
use secure_auth_x_pro.Admin.Listing.{AdminUsersListResponse}
use secure_auth_x_pro.Admin.Listing as Users
use secure_auth_x_pro.Api.Controllers.Security.{page_number}
use secure_auth_x_pro.Api.Replies.{Reply, reply}

-- What listUsers reads of the query string.
pub record RawUsersQuery : Type 0 where
  pub page : Option String
  pub page_size : Option String
  pub search : Option String
  pub status : Option UserStatus

module _ (db : Prisma) where
  unfoldable pub list_users : RawUsersQuery → Action (Reply AdminUsersListResponse)
  list_users q = do
    listed ← Users.list_users db (record {
      page = page_number q.page;
      page_size = page_number q.page_size;
      search = q.search;
      status = q.status;
    })
    pure (reply "ADMIN_USERS_LISTED" "Users." listed [])

  unfoldable pub set_user_role : String → String → UserRole → RequestContext → Action (Reply User)
  set_user_role actor_id id role req = do
    updated ← Admin.set_user_role db actor_id id role req
    pure (reply "ADMIN_USER_ROLE_UPDATED" "User role updated." updated [])

  unfoldable pub set_user_status :
      String → String → UserStatus → RequestContext → Action (Reply User)
  set_user_status actor_id id status req = do
    updated ← Admin.set_user_status db actor_id id status req
    pure (reply "ADMIN_USER_STATUS_UPDATED" "User status updated." updated [])
