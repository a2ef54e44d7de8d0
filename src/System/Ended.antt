-- ===== src/System/Ended.antt =====
-- Sessions that are over, whatever calls of the services follow.
use secure_auth_x_pro.Prelude.{
  String, ◌==◌, eq_iff, ◌≡◌, ◌≢◌, ◌∙◌, refl, sym, Bool, true, none, some, arith, inl, inr,
  Option-cases,
}
use secure_auth_x_pro.Schema.{Store, Session, JwtPayload, is_active}
use secure_auth_x_pro.Prisma.{Prisma, IsPrisma}
use secure_auth_x_pro.Prisma.Table.{find_first}
use secure_auth_x_pro.Prisma.Rows.{find_first-holds, find_first-key}
use secure_auth_x_pro.World.{World}
use secure_auth_x_pro.Http.{RequestContext}
use secure_auth_x_pro.Exec.{err}
use secure_auth_x_pro.Repositories.Sessions.{active_with_id}
use secure_auth_x_pro.Jwt.{verify_refresh_token}
use secure_auth_x_pro.Auth.Refresh.{refresh, session_inactive}
use secure_auth_x_pro.Auth.Refresh.Rotation
use secure_auth_x_pro.Auth.Refresh.Reuse.{session_id}
use secure_auth_x_pro.System.Lifecycle.{
  UniqueIds, Phase, live, over, phase, ◌⟶◌, opens, ends, rests, follows,
}
use secure_auth_x_pro.System.Reachable.{Reachable, Reachable-UniqueIds, Reachable-phase}

live_ne_over : live ≢ over
live_ne_over h = cc

pub over_stays : {p q : Phase} → p ⟶ q → p ≡ over → q ≡ over
over_stays opens h = cc
over_stays ends h = refl
over_stays rests h = h
over_stays (follows a b) h = over_stays b (over_stays a h)

-- No query for active rows with the id of a session that is over finds one.
pub over_none :
    (id : String) (q : Session → Bool) (s : Store)
    → UniqueIds s
    → phase id s.sessions ≡ over
    → ((x : Session) → q x ≡ true → ((x.id == id) ≡ true) × (is_active x.status ≡ true))
    → find_first q s.sessions ≡ none
over_none id q s d ended about = elim (Option-cases (find_first q s.sessions)) [
  | inl nothing ↦ nothing
  | inr (x, found) ↦
      let (named, active) = about x (find_first-holds q s.sessions found) in
      let same : x.id ≡ id = ground (arith, eq_iff x.id id) in
      let first = find_first-key session_id q s.sessions d found in
      let seen : phase id s.sessions ≡ live = rw (← same) (rw (first, active)) in
      absurd (live_ne_over (sym seen ∙ ended))
]

module _ {db : Prisma} (laws : IsPrisma db) (w : World) (s t : Store) (id : String) where
  -- No query for active rows with the id finds one then.
  pub Reachable_none :
      UniqueIds s
      → phase id s.sessions ≡ over
      → Reachable db w s t
      → (q : Session → Bool)
      → ((x : Session) → q x ≡ true → ((x.id == id) ≡ true) × (is_active x.status ≡ true))
      → find_first q t.sessions ≡ none
  Reachable_none d ended path q about =
      over_none id q t (Reachable-UniqueIds laws w s t path d)
        (over_stays (Reachable-phase laws w s t id path) ended) about

  -- Once a session is over, where no two sessions have the same id, whatever calls of the services
  -- follow: a refresh token that verifies and names the session is refused because the session is not
  -- active, and nothing is written.
  pub Reachable-refresh :
      UniqueIds s
      → phase id s.sessions ≡ over
      → Reachable db w s t
      → (req : RequestContext) (token : String) {p : JwtPayload}
      → verify_refresh_token w token t.now ≡ some p
      → p.jti ≡ some id
      → refresh db w token req t ≡ (err session_inactive, t)
  Reachable-refresh d ended path req token verified names =
      Rotation.refresh_inactive_runs laws w token req t verified (
        rw names (
          Reachable_none d ended path (active_with_id (some id))
            (λ x h. (ground arith, ground arith))))
