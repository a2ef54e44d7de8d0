-- ===== src/System/Writes.antt =====
-- The calls of the repositories and of the cache keep each property of the sessions that the writes of
-- sessions leave.
use secure_auth_x_pro.Prelude.{Option, some, List, any, String, inl, inr, Bool-cases, Option-cases}
use secure_auth_x_pro.Schema.{Store, User, Session, Severity, Meta, EmailVerification}
use secure_auth_x_pro.Prisma.{Prisma, IsPrisma}
use secure_auth_x_pro.Prisma.Table
use secure_auth_x_pro.Http.{RequestContext}
use secure_auth_x_pro.Repositories.Users
use secure_auth_x_pro.Repositories.Sessions
use secure_auth_x_pro.Repositories.Audits
use secure_auth_x_pro.Repositories.EmailVerifications
use secure_auth_x_pro.Repositories.Effects
use secure_auth_x_pro.Repositories.Effects.{open_session_of, revoked_session}
use secure_auth_x_pro.System.Kept.{IsStable, IsOrderly, Kept, stays}

module _ {P : List Session → Type 0} (stable : IsStable P) {db : Prisma} (laws : IsPrisma db) where
  pub log-Kept :
      (user_id : Option String) (action : String) (severity : Severity) (req : RequestContext)
      (metadata : List (String × Meta)) (s : Store)
      → P s.sessions
      → Kept P (Audits.log db user_id action severity req metadata s)
  log-Kept user_id action severity req metadata s i = rw (Effects.log_runs laws) (stays _ _ i)

  pub event-Kept :
      (user_id : Option String) (type : String) (severity : Severity) (req : RequestContext)
      (metadata : List (String × Meta)) (s : Store)
      → P s.sessions
      → Kept P (Audits.event db user_id type severity req metadata s)
  event-Kept user_id type severity req metadata s i = rw (Effects.event_runs laws) (stays _ _ i)

  pub update_user-Kept :
      (id : String) (f : User → User) (s : Store) → P s.sessions → Kept P (Users.update db id f s)
  unfolding Users.update
  update_user-Kept id f s i = elim (Option-cases (db.update User (Users.with_id id) f s.users)) [
    | inl e ↦ rw (Users.update, e) (stays _ _ i)
    | inr (_, e) ↦ rw (Users.update, e) (stays _ _ i)
  ]

  pub create_user-Kept : (user : User) (s : Store) → P s.sessions → Kept P (Users.create db user s)
  unfolding Users.create
  create_user-Kept user s i =
      elim (Option-cases (db.create User (Users.clashes user) user s.users)) [
        | inl e ↦ rw (Users.create, e) (stays _ _ i)
        | inr (_, e) ↦ rw (Users.create, e) (stays _ _ i)
      ]

  pub create_session-Kept :
      (new : Session) (s : Store) → P s.sessions → Kept P (Sessions.create db new s)
  create_session-Kept new s i = elim (Bool-cases (any (Sessions.clashes new) s.sessions)) [
    | inl clash ↦ rw (Effects.create_session_taken laws new s clash) (stays _ _ i)
    | inr apart ↦
        rw (Effects.create_session_runs laws new s apart)
          (stays _ _ (stable.appended s.sessions new apart i))
  ]

  pub update_session-Kept :
      (id : String) (f : Session → Session) (s : Store)
      → IsOrderly f
      → P s.sessions
      → Kept P (Sessions.update db id f s)
  unfolding Sessions.update Table.update
  update_session-Kept id f s orderly i =
      elim (Option-cases (Table.find_first (Sessions.with_id id) s.sessions)) [
        | inl absent ↦ rw (Sessions.update, laws.updates, Table.update, absent) (stays _ _ i)
        | inr (x, found) ↦
            rw (Sessions.update, laws.updates, Table.update, found)
              (stays _ _ (stable.updated s.sessions id f orderly i))
      ]

  pub revoke_all-Kept :
      (user_id : String) (except_id : Option String) (s : Store)
      → P s.sessions
      → Kept P (Sessions.revoke_all_for_user db user_id except_id s)
  revoke_all-Kept user_id except_id s i =
      rw (Effects.revoke_all_runs laws user_id except_id s)
        (stays _ _ (stable.revoked s.sessions user_id except_id i))

  pub create_verification-Kept :
      (v : EmailVerification) (s : Store) → P s.sessions → Kept P (EmailVerifications.create db v s)
  unfolding EmailVerifications.create
  create_verification-Kept v s i =
      elim (Option-cases
        (db.create EmailVerification (EmailVerifications.clashes v) v s.email_verifications)) [
          | inl e ↦ rw (EmailVerifications.create, e) (stays _ _ i)
          | inr (_, e) ↦ rw (EmailVerifications.create, e) (stays _ _ i)
        ]

  pub mark_used-Kept :
      (id : String) (s : Store) → P s.sessions → Kept P (EmailVerifications.mark_used db id s)
  unfolding EmailVerifications.mark_used
  mark_used-Kept id s i =
      elim (Option-cases (
        db.update EmailVerification (EmailVerifications.with_id id)
          (λ v. record v { used_at = some s.now }) s.email_verifications)) [
            | inl e ↦ rw (EmailVerifications.mark_used, e) (stays _ _ i)
            | inr (_, e) ↦ rw (EmailVerifications.mark_used, e) (stays _ _ i)
          ]

  pub revoke_pending-Kept :
      (user_id : String) (s : Store)
      → P s.sessions
      → Kept P (EmailVerifications.revoke_pending db user_id s)
  unfolding EmailVerifications.revoke_pending
  revoke_pending-Kept user_id s i = stays _ _ i
