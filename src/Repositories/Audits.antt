-- ===== src/Repositories/Audits.antt =====
-- packages/database/src/repositories/audit.repository.ts. Every call of the services passes the
-- request. The log tables have no unique column but the row's own fresh id. The address of the client is
-- one that fits its column, of 45 characters: the program's client throws at a longer one.
use secure_auth_x_pro.Prelude.{false, Option, none, some, List, String}
use secure_auth_x_pro.Schema.{AuditLog, SecurityEvent, Severity, Meta}
use secure_auth_x_pro.Prisma.{Prisma}
use secure_auth_x_pro.Exec.{Action, unique_violation, ok, err}
use secure_auth_x_pro.Http.{RequestContext, get_client_ip, get_user_agent}

module _ (db : Prisma) where
  unfoldable pub log :
      Option String → String → Severity → RequestContext → List (String × Meta) → Action (Unit {0})
  log user_id action severity req metadata s =
      elim (db.create AuditLog (λ _. false)
        (record {
          user_id = user_id;
          action = action;
          severity = severity;
          ip_address = some (get_client_ip req);
          user_agent = some (get_user_agent req);
          metadata = metadata;
          created_at = s.now;
        })
        s.audit_logs) [
          | none ↦ (err unique_violation, s)
          | some t ↦ (ok tt, record s { audit_logs = t })
        ]

  unfoldable pub event :
      Option String → String → Severity → RequestContext → List (String × Meta) → Action (Unit {0})
  event user_id type severity req metadata s =
      elim (db.create SecurityEvent (λ _. false)
        (record {
          user_id = user_id;
          type = type;
          severity = severity;
          ip_address = some (get_client_ip req);
          user_agent = some (get_user_agent req);
          metadata = metadata;
          created_at = s.now;
        })
        s.security_events) [
          | none ↦ (err unique_violation, s)
          | some t ↦ (ok tt, record s { security_events = t })
        ]
