-- ===== src/Repositories/Users/Listing.antt =====
-- The queries of user.repository.ts for the administration pages. The selected columns are those that
-- the service reads.
use secure_auth_x_pro.Prelude.{ℕ, Bool, true, ◌&&◌, Option, none, some, List, String}
use secure_auth_x_pro.Schema.{User, UserStatus, same_status}
use secure_auth_x_pro.Text.{contains}
use secure_auth_x_pro.Http.{non_empty}
use secure_auth_x_pro.Prisma.{Prisma}
use secure_auth_x_pro.Exec.{Action, ok}

abbrev has_search : Option String → String → Bool
has_search none email = true
has_search (some search) email = contains search email

abbrev has_status : Option UserStatus → UserStatus → Bool
has_status none status = true
has_status (some wanted) status = same_status wanted status

-- The `where` of both queries.
unfoldable pub is_listed : Option String → Option UserStatus → User → Bool
is_listed search status u = has_search (non_empty search) u.email && has_status status u.status

module _ (db : Prisma) where
  unfoldable pub list : ℕ → ℕ → Option String → Option UserStatus → Action (List User)
  list skip n search status s =
      (ok (db.find_page User (λ u. u.created_at) (is_listed search status) skip n s.users), s)

  unfoldable pub count_list : Option String → Option UserStatus → Action ℕ
  count_list search status s = (ok (db.count User (is_listed search status) s.users), s)
