-- ===== src/Auth/Logout/Ending.antt =====
-- auth.service.ts, logout: the session that it ends.
use secure_auth_x_pro.Prelude.{
  ◌≡◌, refl, some, none, Option, List, [], String, is_some, ◌⊎◌, inl, inr, Option-cases,
}
use secure_auth_x_pro.Schema.{Store, Session, info}
use secure_auth_x_pro.Prisma.{Prisma, IsPrisma}
use secure_auth_x_pro.Prisma.Table.{find_first, update, set_first}
use secure_auth_x_pro.Prisma.Rows.{find_first-holds, find_first-set_first}
use secure_auth_x_pro.System.Lifecycle.{phase, over}
use secure_auth_x_pro.World.{World}
use secure_auth_x_pro.Http.{RequestContext, non_empty}
use secure_auth_x_pro.Exec.{ok, err, record_missing}
use secure_auth_x_pro.Repositories.Sessions
use secure_auth_x_pro.Repositories.Sessions.{with_id}
use secure_auth_x_pro.Repositories.Effects
use secure_auth_x_pro.Repositories.Effects.{logged, session_written, revoked_session}
use secure_auth_x_pro.Auth.Logout.{
  LoggedOut, Target, logout, logout_target, end_session, audit_logout,
}

abbrev pub audited : Option String → RequestContext → Store → Store
audited none req s = s
audited (some user_id) req s = logged (some user_id) "auth.logout" info req [] s

abbrev pub outcome : Target → LoggedOut
outcome target = record { revoked = is_some target.session_id; user_id = target.user_id }

module _ {db : Prisma} (laws : IsPrisma db) (w : World) where
  nobody_runs :
      (req : RequestContext) (s : Store)
      → non_empty (logout_target w req s.now).session_id ≡ none
      → logout db w req s ≡ (ok (outcome (logout_target w req s.now)), s)
  unfolding logout end_session
  nobody_runs req s h = rw (logout, h, end_session)

  missing_runs :
      (req : RequestContext) (s : Store) {id : String}
      → non_empty (logout_target w req s.now).session_id ≡ some id
      → find_first (with_id id) s.sessions ≡ none
      → logout db w req s ≡ (err record_missing, s)
  unfolding logout end_session Sessions.revoke Sessions.update update
  missing_runs req s h missing =
      rw (logout, h, end_session, Sessions.revoke, Sessions.update, laws.updates, update, missing)

  audit_runs :
      (user_id : Option String) (req : RequestContext) (s : Store)
      → audit_logout db user_id req s ≡ (ok tt, audited user_id req s)
  unfolding audit_logout
  audit_runs none req s = refl
  audit_runs (some user_id) req s = Effects.log_runs laws (some user_id) "auth.logout" info req [] s

  ended_runs :
      (req : RequestContext) (s : Store) {id : String} {x : Session}
      → non_empty (logout_target w req s.now).session_id ≡ some id
      → find_first (with_id id) s.sessions ≡ some x
      → logout db w req s ≡ (
        ok (outcome (logout_target w req s.now)),
        audited
            (non_empty (logout_target w req s.now).user_id)
            req
            (session_written id revoked_session s),
      )
  unfolding logout end_session
  ended_runs req s {id} h found =
      rw (logout, h, end_session, Effects.revoke_runs laws id s found, audit_runs)

  audited-sessions :
      (user_id : Option String) (req : RequestContext) (s : Store)
      → (audited user_id req s).sessions ≡ s.sessions
  audited-sessions none req s = refl
  audited-sessions (some user_id) req s = refl

  ended_phase :
      (id : String) (t : List Session) {x : Session}
      → find_first (with_id id) t ≡ some x
      → phase id (set_first (with_id id) revoked_session t) ≡ over
  ended_phase id t found =
      rw
        (find_first-set_first (with_id id) revoked_session t found
          (find_first-holds (with_id id) t found))
        refl

  -- A logout that names no session answers and writes nothing. One that names a session without a row
  -- throws and writes nothing. One that names a session with a row answers, and leaves what was there
  -- with the session over and the logout noted.
  pub logout_lem :
      (req : RequestContext) (s : Store)
      → let target = logout_target w req s.now in
        ((non_empty target.session_id ≡ none) × (logout db w req s ≡ (ok (outcome target), s)))
        ⊎ ((id : String) × (non_empty target.session_id ≡ some id)
            × (((find_first (with_id id) s.sessions ≡ none)
                  × (logout db w req s ≡ (err record_missing, s)))
                ⊎ ((x : Session) × (find_first (with_id id) s.sessions ≡ some x)
                    × (logout db w req s ≡ (
                      ok (outcome target),
                      audited (non_empty target.user_id) req (session_written id revoked_session s),
                    ))
                    × (phase id (logout db w req s).1.sessions ≡ over))))
  logout_lem req s = elim (Option-cases (non_empty (logout_target w req s.now).session_id)) [
    | inl nobody ↦ inl (nobody, nobody_runs req s nobody)
    | inr (id, named) ↦ elim (Option-cases (find_first (with_id id) s.sessions)) [
      | inl missing ↦ inr (id, named, inl (missing, missing_runs req s named missing))
      | inr (x, found) ↦
          let runs = ended_runs req s named found in
          inr (
            id,
            named,
            inr (
              x,
              found,
              runs,
              rw
                  (
                    runs,
                    audited-sessions (non_empty (logout_target w req s.now).user_id) req
                        (session_written id revoked_session s),
                  )
                  (ended_phase id s.sessions found),
            ),
          )
    ]
  ]
