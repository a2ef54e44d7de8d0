-- ===== src/Repositories/Security.antt =====
-- packages/database/src/repositories/security.repository.ts: the two listings. A listing is findMany
-- with `skip` and `take`, and a count under the same condition.
use secure_auth_x_pro.Prelude.{
  ℕ, Bool, true, false, ◌&&◌, Option, none, some, List, String, ◌==◌, leb, is_some, if◌then◌else◌,
}
use secure_auth_x_pro.Schema.{AuditLog, SecurityEvent, Severity, same_severity}
use secure_auth_x_pro.Text.{starts_with, ends_with_dot}
use secure_auth_x_pro.Http.{non_empty}
use secure_auth_x_pro.Prisma.{Prisma}
use secure_auth_x_pro.Exec.{Action, library_error, ok, err}

pub record SecurityListParams : Type 0 where
  pub user_id : Option String
  pub skip : ℕ
  pub take : ℕ
  pub severity : Option Severity
  pub action : Option String
  pub from : Option ℕ

pub data ActionFilter : Type 0 where
  starts equals : String → ActionFilter

-- The `where` object: null for a condition that it lacks.
pub record Where : Type 0 where
  pub user_id : Option String
  pub severity : Option Severity
  pub created_at : Option ℕ
  pub action : Option ActionFilter

abbrev pub action_filter : Option String → Option ActionFilter
action_filter none = none
action_filter (some a) =
    some (if ends_with_dot a then ActionFilter.starts a else ActionFilter.equals a)

unfoldable pub build_where : SecurityListParams → Where
build_where params = record {
  user_id = non_empty params.user_id;
  severity = params.severity;
  created_at = params.from;
  action = action_filter (non_empty params.action);
}

abbrev pub has_user : Option String → Option String → Bool
has_user none user_id = true
has_user (some id) none = false
has_user (some id) (some user_id) = user_id == id

abbrev pub has_severity : Option Severity → Severity → Bool
has_severity none severity = true
has_severity (some wanted) severity = same_severity wanted severity

abbrev is_recent : Option ℕ → ℕ → Bool
is_recent none created_at = true
is_recent (some from) created_at = leb from created_at

abbrev pub has_action : Option ActionFilter → String → Bool
has_action none action = true
has_action (some (ActionFilter.starts prefix)) action = starts_with action prefix
has_action (some (ActionFilter.equals wanted)) action = action == wanted

-- The rows of `audit_logs` that a condition asks for.
unfoldable pub audit_matches : Where → AuditLog → Bool
audit_matches cond row =
    has_user cond.user_id row.user_id
    && has_severity cond.severity row.severity
    && is_recent cond.created_at row.created_at
    && has_action cond.action row.action

-- Those of `security_events`, where the condition names no column that this table lacks.
unfoldable pub event_matches : Where → SecurityEvent → Bool
event_matches cond row =
    has_user cond.user_id row.user_id
    && has_severity cond.severity row.severity
    && is_recent cond.created_at row.created_at

module _ (db : Prisma) where
  unfoldable pub list_audit_logs : SecurityListParams → Action (List AuditLog × ℕ)
  list_audit_logs params s =
      let test = audit_matches (build_where params) in
      let rows =
        db.find_page AuditLog (λ row. row.created_at) test params.skip params.take s.audit_logs in
      (ok (rows, db.count AuditLog test s.audit_logs), s)

  -- The table has no column `action`, and the client throws at a condition on an unknown column.
  unfoldable pub list_security_events : SecurityListParams → Action (List SecurityEvent × ℕ)
  list_security_events params s =
      let cond = build_where params in
      let test = event_matches cond in
      let rows =
        db.find_page SecurityEvent (λ row. row.created_at) test params.skip params.take
          s.security_events in
      if is_some cond.action
      then (err library_error, s)
      else (ok (rows, db.count SecurityEvent test s.security_events), s)
