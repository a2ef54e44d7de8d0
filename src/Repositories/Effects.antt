-- ===== src/Repositories/Effects.antt =====
-- What the repositories do to the store over a client that answers as documented: each call as an
-- equation, in terms of the rows before it.
use secure_auth_x_pro.Prelude.{
  ◌≡◌, Bool, ◌&&◌, ◌==◌, true, Option, none, some, List, [], ◌∷◌, ◌++◌, any, false, String,
}
use secure_auth_x_pro.Schema.{Store, is_active, User, Session, SessionStatus, Severity, Meta}
use secure_auth_x_pro.Prisma.{Prisma, IsPrisma}
use secure_auth_x_pro.Prisma.Table
use secure_auth_x_pro.Prisma.Rows
use secure_auth_x_pro.Http.{RequestContext, get_client_ip, get_user_agent}
use secure_auth_x_pro.Exec.{ok, err, unique_violation}
use secure_auth_x_pro.Repositories.Users
use secure_auth_x_pro.Repositories.Users.{with_id}
use secure_auth_x_pro.Repositories.Sessions
use secure_auth_x_pro.Repositories.Audits

-- The store with one more row in the audit log.
abbrev pub logged :
    Option String → String → Severity → RequestContext → List (String × Meta) → Store → Store
logged user_id action severity req metadata s = record s {
  audit_logs =
      s.audit_logs
      ++ record {
        user_id = user_id;
        action = action;
        severity = severity;
        ip_address = some (get_client_ip req);
        user_agent = some (get_user_agent req);
        metadata = metadata;
        created_at = s.now;
      }
        ∷ [];
}

-- The store with one more security event.
abbrev pub noted :
    Option String → String → Severity → RequestContext → List (String × Meta) → Store → Store
noted user_id type severity req metadata s = record s {
  security_events =
      s.security_events
      ++ record {
        user_id = user_id;
        type = type;
        severity = severity;
        ip_address = some (get_client_ip req);
        user_agent = some (get_user_agent req);
        metadata = metadata;
        created_at = s.now;
      }
        ∷ [];
}

-- The test of `revokeAllForUser`: the active sessions of a user, but one.
abbrev pub open_session_of : String → Option String → Session → Bool
open_session_of user_id except_id x =
    (x.user_id == user_id) && is_active x.status && Sessions.is_excepted except_id x

abbrev pub revoked_session : Session → Session
revoked_session x = record x { status = SessionStatus.revoked }

-- The store with a user's row rewritten.
abbrev pub user_written : String → (User → User) → Store → Store
user_written id f s = record s { users = Table.set_first (with_id id) f s.users }

-- The store with one session's row rewritten.
abbrev pub session_written : String → (Session → Session) → Store → Store
session_written id f s = record s { sessions = Table.set_first (Sessions.with_id id) f s.sessions }

-- The store with the user's sessions ended.
abbrev pub sessions_revoked : String → Option String → Store → Store
sessions_revoked user_id except_id s = record s {
  sessions = Table.set_all (open_session_of user_id except_id) revoked_session s.sessions;
}

module _ {db : Prisma} (laws : IsPrisma db) where
  pub log_runs :
      (user_id : Option String) (action : String) (severity : Severity) (req : RequestContext)
      (metadata : List (String × Meta)) (s : Store)
      → Audits.log db user_id action severity req metadata s
        ≡ (ok tt, logged user_id action severity req metadata s)
  unfolding Audits.log
  log_runs user_id action severity req metadata s = rw (Audits.log, laws.creates, Rows.create-any)

  pub event_runs :
      (user_id : Option String) (type : String) (severity : Severity) (req : RequestContext)
      (metadata : List (String × Meta)) (s : Store)
      → Audits.event db user_id type severity req metadata s
        ≡ (ok tt, noted user_id type severity req metadata s)
  unfolding Audits.event
  event_runs user_id type severity req metadata s = rw (Audits.event, laws.creates, Rows.create-any)

  pub find_by_id_runs :
      (id : String) (s : Store)
      → Users.find_by_id db id s ≡ (ok (Table.find_first (with_id id) s.users), s)
  unfolding Users.find_by_id
  find_by_id_runs id s = rw (laws.finds_first)

  pub find_by_email_runs :
      (email : String) (s : Store)
      → Users.find_by_email db email s ≡ (ok (Table.find_first (Users.with_email email) s.users), s)
  unfolding Users.find_by_email
  find_by_email_runs email s = rw (laws.finds_first)

  pub update_user_runs :
      (id : String) (f : User → User) (s : Store) {u : User}
      → Table.find_first (with_id id) s.users ≡ some u
      → Users.update db id f s ≡ (ok (f u), user_written id f s)
  unfolding Users.update
  update_user_runs id f s found = rw (Users.update, laws.updates, Rows.update-found _ f _ found)

  pub revoke_all_runs :
      (user_id : String) (except_id : Option String) (s : Store)
      → Sessions.revoke_all_for_user db user_id except_id s
        ≡ (ok tt, sessions_revoked user_id except_id s)
  unfolding Sessions.revoke_all_for_user Table.update_many
  revoke_all_runs user_id except_id s = rw laws.updates_many

  pub revoke_runs :
      (id : String) (s : Store) {x : Session}
      → Table.find_first (Sessions.with_id id) s.sessions ≡ some x
      → Sessions.revoke db id s ≡ (ok tt, session_written id revoked_session s)
  unfolding Sessions.revoke Sessions.update
  revoke_runs id s found =
      rw (
        Sessions.revoke,
        Sessions.update,
        laws.updates,
        Rows.update-found _ revoked_session _ found,
      )

  pub find_active_runs :
      (id : Option String) (s : Store) {x : Session} {u : User}
      → Table.find_first (Sessions.active_with_id id) s.sessions ≡ some x
      → Table.find_first (with_id x.user_id) s.users ≡ some u
      → Sessions.find_active_by_id db id s ≡ (ok (some (x, u)), s)
  unfolding Sessions.find_active_by_id
  find_active_runs id s {x} found owner = rw (
    Sessions.find_active_by_id,
    laws.finds_first Session (Sessions.active_with_id id) s.sessions,
    found,
    laws.finds_first,
    owner,
  )

  pub find_active_absent :
      (id : Option String) (s : Store)
      → Table.find_first (Sessions.active_with_id id) s.sessions ≡ none
      → Sessions.find_active_by_id db id s ≡ (ok none, s)
  unfolding Sessions.find_active_by_id
  find_active_absent id s absent = rw (
    Sessions.find_active_by_id,
    laws.finds_first Session (Sessions.active_with_id id) s.sessions,
    absent,
  )

  pub update_session_runs :
      (id : String) (f : Session → Session) (s : Store) {x : Session}
      → Table.find_first (Sessions.with_id id) s.sessions ≡ some x
      → Sessions.update db id f s ≡ (ok tt, session_written id f s)
  unfolding Sessions.update
  update_session_runs id f s found =
      rw (Sessions.update, laws.updates, Rows.update-found _ f _ found)

  pub find_active_orphan :
      (id : Option String) (s : Store) {x : Session}
      → Table.find_first (Sessions.active_with_id id) s.sessions ≡ some x
      → Table.find_first (with_id x.user_id) s.users ≡ none
      → Sessions.find_active_by_id db id s ≡ (ok none, s)
  unfolding Sessions.find_active_by_id
  find_active_orphan id s {x} found orphan = rw (
    Sessions.find_active_by_id,
    laws.finds_first Session (Sessions.active_with_id id) s.sessions,
    found,
    laws.finds_first,
    orphan,
  )

  pub create_session_runs :
      (x : Session) (s : Store)
      → any (Sessions.clashes x) s.sessions ≡ false
      → Sessions.create db x s ≡ (ok x, record s { sessions = s.sessions ++ x ∷ [] })
  unfolding Sessions.create Table.create
  create_session_runs x s apart = rw (Sessions.create, laws.creates, Table.create, apart)

  pub create_session_taken :
      (x : Session) (s : Store)
      → any (Sessions.clashes x) s.sessions ≡ true
      → Sessions.create db x s ≡ (err unique_violation, s)
  unfolding Sessions.create Table.create
  create_session_taken x s clash = rw (Sessions.create, laws.creates, Table.create, clash)
