-- ===== src/Examples/Listings.antt =====
-- The listings over the example installation, with the logs of two users.
use secure_auth_x_pro.Prelude.{◌≡◌, ◌≢◌, none, some, [], ◌∷◌, map, String, eq_iff, arith}
use secure_auth_x_pro.Schema.{Store, User, UserStatus, AuditLog, info}
use secure_auth_x_pro.Pagination.{whole}
use secure_auth_x_pro.Prisma.{reference, reference-IsPrisma}
use secure_auth_x_pro.Text
use secure_auth_x_pro.Text.{trim}
use secure_auth_x_pro.Repositories.Users.Listing.{is_listed}
use secure_auth_x_pro.Http.{non_empty}
use secure_auth_x_pro.Security.{
  ListQuery, to_audit_entry, list_my_audit_logs, list_my_security_events,
}
use secure_auth_x_pro.Security.Scope.{asked_audit, Shows, ShowsEvents, listings-IsOwn}
use secure_auth_x_pro.Admin.Listing.{to_user_row}
use secure_auth_x_pro.Admin.Listing.Pages.{
  ApartInTime, read_pages, seen, told, listed_users, list_users-read_pages,
}
use secure_auth_x_pro.Examples.{alice, store}

abbrev log_of : String → String → AuditLog
log_of user action = record {
  user_id = some user;
  action = action;
  severity = info;
  ip_address = none;
  user_agent = none;
  metadata = [];
  created_at = 10;
}

abbrev bob : User
bob = record alice { id = "u2"; email = "bob@example.com"; created_at = 5 }

abbrev logged : Store
logged = record store {
  users = alice ∷ bob ∷ [];
  audit_logs =
      log_of "u1" "auth.login_success"
      ∷ log_of "u2" "auth.login_success"
      ∷ log_of "u1" "mfa.disabled"
      ∷ [];
}

abbrev query : ListQuery
query = record {
  page = some (whole 1);
  page_size = none;
  severity = some info;
  kind = some "auth.";
}

named_user : ◌≢◌ {A = String} "u1" ""
named_user e = ground (arith, eq_iff "u1" "")

listings-IsOwn_example :
    Shows "u1" query
      (λ (row : AuditLog). row.user_id)
      (asked_audit "u1" query)
      (λ row. row.created_at)
      to_audit_entry
      logged.audit_logs
      logged
      (list_my_audit_logs reference "u1" query logged)
    × ShowsEvents "u1" query
        (non_empty query.kind)
        logged
        (list_my_security_events reference "u1" query logged)
listings-IsOwn_example = listings-IsOwn reference-IsPrisma "u1" query logged named_user

apart : ApartInTime (some "example") (some UserStatus.active) logged
unfolding is_listed trim Text.contains
apart = ((λ same. omega arith, tt), (tt, tt))

list_users-read_pages_example :
    read_pages
      (seen (some "example") (some UserStatus.active) reference 1 logged)
      1
      (told (some "example") (some UserStatus.active) reference 1 logged)
    ≡ map to_user_row (listed_users (some "example") (some UserStatus.active) logged)
list_users-read_pages_example =
    list_users-read_pages reference-IsPrisma (some "example") (some UserStatus.active) 1 logged
      apart (omega arith) (omega arith)
