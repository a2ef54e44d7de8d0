-- ===== src/Api/Controllers/Security.antt =====
-- apps/api/src/controllers/security.controller.ts
use secure_auth_x_pro.Prelude.{Option, none, some, [], String, is_empty, if◌then◌else◌}
use secure_auth_x_pro.Schema.{Severity}
use secure_auth_x_pro.Text.Integers.{parse_int}
use secure_auth_x_pro.Pagination.{JsNumber}
use secure_auth_x_pro.Prisma.{Prisma}
use secure_auth_x_pro.Exec.{Action, pure, ◌>>=◌}
use secure_auth_x_pro.Security.{ListQuery, ListResponse, AuditLogEntry, SecurityEventEntry}
use secure_auth_x_pro.Security
use secure_auth_x_pro.Api.Replies.{Reply, reply}

-- What a controller reads of the query string, `kind` being `action` or `type`.
pub record RawQuery : Type 0 where
  pub page : Option String
  pub page_size : Option String
  pub severity : Option Severity
  pub kind : Option String

-- `q.page ? parseInt(q.page, 10) : undefined`
unfoldable pub page_number : Option String → Option JsNumber
page_number none = none
page_number (some v) = if is_empty v then none else some (parse_int v)

unfoldable pub to_list_query : RawQuery → ListQuery
to_list_query q = record {
  page = page_number q.page;
  page_size = page_number q.page_size;
  severity = q.severity;
  kind = q.kind;
}

module _ (db : Prisma) where
  unfoldable pub list_audit_logs : String → RawQuery → Action (Reply (ListResponse AuditLogEntry))
  list_audit_logs user_id q = do
    listed ← Security.list_my_audit_logs db user_id (to_list_query q)
    pure (reply "AUDIT_LOGS_FETCHED" "Audit logs." listed [])

  unfoldable pub list_security_events :
      String → RawQuery → Action (Reply (ListResponse SecurityEventEntry))
  list_security_events user_id q = do
    listed ← Security.list_my_security_events db user_id (to_list_query q)
    pure (reply "SECURITY_EVENTS_FETCHED" "Security events." listed [])
