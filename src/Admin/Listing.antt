-- ===== src/Admin/Listing.antt =====
-- listUsers of apps/api/src/services/admin.service.ts. Times are given as numbers.
pub mod Pages
use secure_auth_x_pro.Prelude.{ℕ, Bool, Option, none, some, List, map, String}
use secure_auth_x_pro.Schema.{User, UserRole, UserStatus}
use secure_auth_x_pro.Text.{trim}
use secure_auth_x_pro.Http.{non_empty}
use secure_auth_x_pro.Pagination.{
  JsNumber, PaginationMeta, resolve_pagination, build_pagination_meta,
}
use secure_auth_x_pro.Prisma.{Prisma}
use secure_auth_x_pro.Exec.{Action, pure, ◌>>=◌}
use secure_auth_x_pro.Repositories.Users.Listing as Rows

pub record AdminUserRow : Type 0 where
  pub id : String
  pub email : String
  pub role : UserRole
  pub status : UserStatus
  pub email_verified : Bool
  pub mfa_enabled : Bool
  pub last_login_at : Option ℕ
  pub created_at : ℕ

pub record AdminUsersListResponse : Type 0 where
  pub items : List AdminUserRow
  pub meta : PaginationMeta

pub record UsersQuery : Type 0 where
  pub page : Option JsNumber
  pub page_size : Option JsNumber
  pub search : Option String
  pub status : Option UserStatus

unfoldable pub to_user_row : User → AdminUserRow
to_user_row row = record {
  id = row.id;
  email = row.email;
  role = row.role;
  status = row.status;
  email_verified = row.email_verified;
  mfa_enabled = row.mfa_enabled;
  last_login_at = row.last_login_at;
  created_at = row.created_at;
}

-- `query.search?.trim()`
abbrev pub trimmed : Option String → Option String
trimmed none = none
trimmed (some search) = some (trim search)

module _ (db : Prisma) where
  unfoldable pub list_users : UsersQuery → Action AdminUsersListResponse
  list_users query = do
    let r = resolve_pagination query.page query.page_size
    let search = non_empty (trimmed query.search)
    rows ← Rows.list db r.skip r.take search query.status
    total ← Rows.count_list db search query.status
    pure (record {
      items = map to_user_row rows;
      meta = build_pagination_meta r.page r.page_size total;
    })
