-- ===== src/Security.antt =====
-- apps/api/src/services/security.service.ts. The id of a row is the database's own; an entry is given
-- without it, and with its time as a number.
pub mod Scope
use secure_auth_x_pro.Prelude.{ℕ, Option, none, some, List, map, String}
use secure_auth_x_pro.Schema.{AuditLog, SecurityEvent, Severity, Meta}
use secure_auth_x_pro.Pagination.{JsNumber, resolve_pagination}
use secure_auth_x_pro.Prisma.{Prisma}
use secure_auth_x_pro.Exec.{Action, pure, ◌>>=◌}
use secure_auth_x_pro.Repositories.Security.{SecurityListParams}
use secure_auth_x_pro.Repositories.Security as Rows

pub record AuditLogEntry : Type 0 where
  pub action : String
  pub severity : Severity
  pub ip_address : Option String
  pub user_agent : Option String
  pub metadata : List (String × Meta)
  pub created_at : ℕ

pub record SecurityEventEntry : Type 0 where
  pub type : String
  pub severity : Severity
  pub ip_address : Option String
  pub user_agent : Option String
  pub metadata : List (String × Meta)
  pub created_at : ℕ

-- AuditLogListResponse, SecurityEventListResponse
pub record ListResponse (A : Type 0) : Type 0 where
  pub items : List A
  pub total : ℕ
  pub page : ℕ
  pub page_size : ℕ

-- The `query` of either listing: `kind` is `action` or `type`. The schemas let only the names of
-- severities pass.
pub record ListQuery : Type 0 where
  pub page : Option JsNumber
  pub page_size : Option JsNumber
  pub severity : Option Severity
  pub kind : Option String

unfoldable pub to_audit_entry : AuditLog → AuditLogEntry
to_audit_entry row = record {
  action = row.action;
  severity = row.severity;
  ip_address = row.ip_address;
  user_agent = row.user_agent;
  metadata = row.metadata;
  created_at = row.created_at;
}

unfoldable pub to_event_entry : SecurityEvent → SecurityEventEntry
to_event_entry row = record {
  type = row.type;
  severity = row.severity;
  ip_address = row.ip_address;
  user_agent = row.user_agent;
  metadata = row.metadata;
  created_at = row.created_at;
}

-- The parameters that both listings hand to the repository.
abbrev pub list_params : String → ListQuery → SecurityListParams
list_params user_id query =
    let r = resolve_pagination query.page query.page_size in
    record {
      user_id = some user_id;
      skip = r.skip;
      take = r.take;
      severity = query.severity;
      action = query.kind;
      from = none;
    }

module _ (db : Prisma) where
  unfoldable pub list_my_audit_logs : String → ListQuery → Action (ListResponse AuditLogEntry)
  list_my_audit_logs user_id query =
      let r = resolve_pagination query.page query.page_size in
      Rows.list_audit_logs db (list_params user_id query) >>= λ listed. pure (record {
        items = map to_audit_entry listed.0;
        total = listed.1;
        page = r.page;
        page_size = r.page_size;
      })

  unfoldable pub list_my_security_events :
      String → ListQuery → Action (ListResponse SecurityEventEntry)
  list_my_security_events user_id query =
      let r = resolve_pagination query.page query.page_size in
      Rows.list_security_events db (list_params user_id query) >>= λ listed. pure (record {
        items = map to_event_entry listed.0;
        total = listed.1;
        page = r.page;
        page_size = r.page_size;
      })
