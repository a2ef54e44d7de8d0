-- ===== src/Admin/Closing.antt =====
-- admin.service.ts and auth.service.ts together: an account that an administrator locks or
-- disables.
use secure_auth_x_pro.Prelude.{
  ◌≡◌, refl, true, none, some, List, String, eq_refl, inl, inr, Option-cases, Bool-cases,
}
use secure_auth_x_pro.Schema.{Store, User, Session, UserStatus, JwtPayload, is_active}
use secure_auth_x_pro.Prisma.{Prisma, IsPrisma}
use secure_auth_x_pro.Prisma.Table.{find_first, set_all}
use secure_auth_x_pro.Prisma.Rows.{find_first-set_all, set_all-Distinct}
use secure_auth_x_pro.World.{World}
use secure_auth_x_pro.Http.{RequestContext}
use secure_auth_x_pro.Exec.{app, err}
use secure_auth_x_pro.Exec.Inversion.{Returns, refused, returned_store}
use secure_auth_x_pro.Repositories.Users.{with_id}
use secure_auth_x_pro.Repositories.Sessions
use secure_auth_x_pro.Repositories.Effects
use secure_auth_x_pro.Repositories.Effects.{open_session_of, revoked_session}
use secure_auth_x_pro.Jwt.{verify_refresh_token}
use secure_auth_x_pro.Auth.Refresh.{refresh, session_inactive}
use secure_auth_x_pro.Auth.Refresh.Reuse.{session_id}
use secure_auth_x_pro.Admin.{set_user_status, ends_sessions, user_not_found}
use secure_auth_x_pro.Admin.Transitions.{status_changed, set_user_status_lem}
use secure_auth_x_pro.System.Lifecycle.{UniqueIds, phase, over}
use secure_auth_x_pro.System.Reachable.{Reachable}
use secure_auth_x_pro.System.Ended.{Reachable-refresh}

module _ {db : Prisma} (laws : IsPrisma db) where
  set_user_status_missing :
      (actor_id id : String) (status : UserStatus) (req : RequestContext) (s : Store)
      → find_first (with_id id) s.users ≡ none
      → set_user_status db actor_id id status req s ≡ (err (app user_not_found), s)
  unfolding set_user_status
  set_user_status_missing actor_id id status req s missing =
      rw (set_user_status, Effects.find_by_id_runs laws id s, missing)

  -- What a change that returned has left.
  set_user_status_inv :
      (actor_id id : String) (status : UserStatus) (req : RequestContext) (s : Store) {u : User}
      {t : Store}
      → Returns (set_user_status db actor_id id status req) s u t
      → (user : User) × (t ≡ status_changed actor_id id user status req s)
  set_user_status_inv actor_id id status req s ran =
      elim (Option-cases (find_first (with_id id) s.users)) [
        | inl missing ↦
            absurd (refused (set_user_status_missing actor_id id status req s missing) ran)
        | inr (user, found) ↦ elim (set_user_status_lem laws actor_id id status req s found) [
          | inl (_, _, e) ↦ absurd (refused e ran)
          | inr (inl (_, e)) ↦ absurd (refused e ran)
          | inr (inr (_, _, e)) ↦ (user, returned_store ran e)
        ]
      ]

  -- The row of a session of the account afterwards is over.
  closed_phase :
      (id sid : String) (t : List Session) {x : Session}
      → find_first (Sessions.with_id sid) t ≡ some x
      → x.user_id ≡ id
      → phase sid (set_all (open_session_of id none) revoked_session t) ≡ over
  closed_phase id sid t {x} found owned =
      let written =
        find_first-set_all (Sessions.with_id sid) (open_session_of id none) revoked_session t
          (λ x h. refl) found in
      elim (Bool-cases (is_active x.status)) [
        | inl on ↦ rw (written, owned, eq_refl id, on) refl
        | inr off ↦ rw (written, owned, eq_refl id, off) (rw off refl)
      ]

  closed_after :
      (actor_id id : String) (user : User) (status : UserStatus) (req : RequestContext) (s : Store)
      (sid : String) {x : Session}
      → ends_sessions status ≡ true
      → find_first (Sessions.with_id sid) s.sessions ≡ some x
      → x.user_id ≡ id
      → phase sid (status_changed actor_id id user status req s).sessions ≡ over
  closed_after actor_id id user status req s sid ends found owned =
      rw ends (closed_phase id sid s.sessions found owned)

  changed-UniqueIds :
      (actor_id id : String) (user : User) (status : UserStatus) (req : RequestContext) (s : Store)
      → ends_sessions status ≡ true
      → UniqueIds s
      → UniqueIds (status_changed actor_id id user status req s)
  changed-UniqueIds actor_id id user status req s ends d = rw ends (
      set_all-Distinct session_id (open_session_of id none) revoked_session s.sessions (λ x. refl)
        d)

  -- Once an administrator has locked or disabled an account, whatever calls of the services follow and
  -- whenever: a refresh token that verifies and names a session that the account had is refused because
  -- the session is not active, and nothing is written. No two sessions have the same id before.
  pub set_user_status-refresh :
      (w : World) (actor_id id : String) (status : UserStatus) (req : RequestContext) (s : Store)
      {u : User} {t : Store}
      → UniqueIds s
      → ends_sessions status ≡ true
      → Returns (set_user_status db actor_id id status req) s u t
      → (session : String) {x : Session} → find_first (Sessions.with_id session) s.sessions ≡ some x
      → x.user_id ≡ id
      → {v : Store} → Reachable db w t v
      → (token : String) (later_req : RequestContext) {p : JwtPayload}
      → verify_refresh_token w token v.now ≡ some p
      → p.jti ≡ some session
      → refresh db w token later_req v ≡ (err session_inactive, v)
  set_user_status-refresh w actor_id id status req s {u} {t} d ends changed session found owned {v}
        path token later_req verified names =
      let (user, et) = set_user_status_inv actor_id id status req s changed in
      Reachable-refresh laws w t v session
        (rw et (changed-UniqueIds actor_id id user status req s ends d))
        (rw et (closed_after actor_id id user status req s session ends found owned)) path later_req
        token verified names
