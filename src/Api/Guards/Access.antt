-- ===== src/Api/Guards/Access.antt =====
-- authenticate.ts and bound-auth.ts: which requests pass, and sessions that are over.
use secure_auth_x_pro.Prelude.{
  String, ◌≡◌, refl, true, false, none, some, arith, inl, inr, Bool-cases, Option-cases, ◌⊎◌, ◌↔◌,
}
use secure_auth_x_pro.Schema.{Store, User, Session, UserStatus, JwtPayload, same_status}
use secure_auth_x_pro.Prisma.{Prisma, IsPrisma}
use secure_auth_x_pro.Prisma.Table.{find_first}
use secure_auth_x_pro.World.{World}
use secure_auth_x_pro.Http.{RequestContext, resolve_access_token}
use secure_auth_x_pro.Exec.{Result, AppError, Failure, err, app}
use secure_auth_x_pro.Exec.Inversion.{Returns, refused, returned_value, returned_store}
use secure_auth_x_pro.Repositories.Users.{with_id}
use secure_auth_x_pro.Repositories.Effects
use secure_auth_x_pro.Jwt.{verify_access_token}
use secure_auth_x_pro.System.Lifecycle.{UniqueIds, over, phase}
use secure_auth_x_pro.System.Reachable.{Reachable}
use secure_auth_x_pro.System.Ended.{Reachable_none}
use secure_auth_x_pro.Api.Guards.{
  AuthenticatedUser, to_authenticated, authenticate, is_session_active, usable, missing_token,
  invalid_token, account_gone, disabled_account, inactive_session,
}

-- What a request that passes presents.
pub record Authorized (w : World) (req : RequestContext) (s : Store) : Type 0 where
  pub token : String
  pub payload : JwtPayload
  pub user : User
  pub session : Session
  pub presented : resolve_access_token req ≡ some token
  pub verified : verify_access_token w token s.now ≡ some payload
  pub found : find_first (with_id payload.sub) s.users ≡ some user
  pub enabled : same_status user.status UserStatus.disabled ≡ false
  pub live : find_first (usable payload.session_id payload.sub s.now) s.sessions ≡ some session

module _ {db : Prisma} (laws : IsPrisma db) (w : World) (req : RequestContext) (s : Store) where
  authenticate_missing_runs :
      resolve_access_token req ≡ none → authenticate db w req s ≡ (err missing_token, s)
  unfolding authenticate
  authenticate_missing_runs e = rw (authenticate, e)

  authenticate_invalid_runs :
      {token : String}
      → resolve_access_token req ≡ some token
      → verify_access_token w token s.now ≡ none
      → authenticate db w req s ≡ (err invalid_token, s)
  unfolding authenticate
  authenticate_invalid_runs e f = rw (authenticate, e, f)

  module _ {token : String} {p : JwtPayload} (presented : resolve_access_token req ≡ some token)
      (verified : verify_access_token w token s.now ≡ some p) where
    authenticate_gone_runs :
        find_first (with_id p.sub) s.users ≡ none → authenticate db w req s ≡ (err account_gone, s)
    unfolding authenticate is_session_active
    authenticate_gone_runs e =
        rw (authenticate, presented, verified, Effects.find_by_id_runs laws p.sub s, e)

    authenticate_disabled_runs :
        {u : User}
        → find_first (with_id p.sub) s.users ≡ some u
        → same_status u.status UserStatus.disabled ≡ true
        → authenticate db w req s ≡ (err (app disabled_account), s)
    unfolding authenticate is_session_active
    authenticate_disabled_runs e f =
        rw (authenticate, presented, verified, Effects.find_by_id_runs laws p.sub s, e, f)

    authenticate_inactive_runs :
        {u : User}
        → find_first (with_id p.sub) s.users ≡ some u
        → same_status u.status UserStatus.disabled ≡ false
        → find_first (usable p.session_id p.sub s.now) s.sessions ≡ none
        → authenticate db w req s ≡ (err (app inactive_session), s)
    unfolding authenticate is_session_active
    authenticate_inactive_runs e f g = rw (
      authenticate,
      presented,
      verified,
      Effects.find_by_id_runs laws p.sub s,
      e,
      f,
      laws.finds_first Session (usable p.session_id p.sub s.now) s.sessions,
      g,
    )

  pub authenticate_passes_runs :
      (c : Authorized w req s) → authenticate db w req s ≡ (Result.ok (to_authenticated c.user), s)
  unfolding authenticate is_session_active
  authenticate_passes_runs c = rw (
    authenticate,
    c.presented,
    c.verified,
    Effects.find_by_id_runs laws c.payload.sub s,
    c.found,
    c.enabled,
    laws.finds_first Session (usable c.payload.session_id c.payload.sub s.now) s.sessions,
    c.live,
  )

  -- A request is denied, with nothing written, or carries all that it needs.
  abbrev pub Denied : Type 0
  Denied =
      (e : AppError) × ((e.status_code ≡ 401) ⊎ (e.status_code ≡ 403))
      × (authenticate db w req s ≡ (err (app e), s))

  pub denied_or_authorized : Denied ⊎ Authorized w req s
  denied_or_authorized = elim (Option-cases (resolve_access_token req)) [
    | inl absent ↦ inl (_, inl refl, authenticate_missing_runs absent)
    | inr (token, presented) ↦ elim (Option-cases (verify_access_token w token s.now)) [
      | inl invalid ↦ inl (_, inl refl, authenticate_invalid_runs presented invalid)
      | inr (p, verified) ↦ elim (Option-cases (find_first (with_id p.sub) s.users)) [
        | inl gone ↦ inl (_, inl refl, authenticate_gone_runs presented verified gone)
        | inr (u, found) ↦ elim (Bool-cases (same_status u.status UserStatus.disabled)) [
          | inl disabled ↦
              inl (_, inr refl, authenticate_disabled_runs presented verified found disabled)
          | inr enabled ↦
              elim (Option-cases (find_first (usable p.session_id p.sub s.now) s.sessions)) [
                | inl idle ↦
                    inl (
                      _,
                      inl refl,
                      authenticate_inactive_runs presented verified found enabled idle,
                    )
                | inr (x, usable_now) ↦ inr (record {
                  token = token;
                  payload = p;
                  user = u;
                  session = x;
                  presented = presented;
                  verified = verified;
                  found = found;
                  enabled = enabled;
                  live = usable_now;
                })
              ]
        ]
      ]
    ]
  ]

  authorized :
      {r : AuthenticatedUser} {t : Store}
      → Returns (authenticate db w req) s r t
      → Authorized w req s
  authorized ran = elim denied_or_authorized [
    | inl (_, _, runs) ↦ absurd (refused runs ran)
    | inr c ↦ c
  ]

  -- A request passes exactly when it carries an access token that verifies, whose user exists and
  -- is not disabled, and whose session is an active one of that user before its end. The next
  -- handler then sees that user, and the store is as it was.
  pub authenticate_lem :
      (r : AuthenticatedUser) (t : Store)
      → Returns (authenticate db w req) s r t
        ↔ ((c : Authorized w req s) × (r ≡ to_authenticated c.user) × (t ≡ s))
  authenticate_lem r t = (
    λ ran.
        let c = authorized ran in
        let runs = authenticate_passes_runs c in
        (c, returned_value ran runs, returned_store ran runs),
    λ (c, er, et). rw (er, et) (authenticate_passes_runs c),
  )

  -- A token without a live session is refused.
  refused_without_session :
      {token : String} {p : JwtPayload}
      → resolve_access_token req ≡ some token
      → verify_access_token w token s.now ≡ some p
      → find_first (usable p.session_id p.sub s.now) s.sessions ≡ none
      → (e : Failure) × (authenticate db w req s ≡ (err e, s))
  refused_without_session {p = p} presented verified idle =
      elim (Option-cases (find_first (with_id p.sub) s.users)) [
        | inl gone ↦ (account_gone, authenticate_gone_runs presented verified gone)
        | inr (u, found) ↦ elim (Bool-cases (same_status u.status UserStatus.disabled)) [
          | inl disabled ↦
              (app disabled_account, authenticate_disabled_runs presented verified found disabled)
          | inr enabled ↦ (
            app inactive_session,
            authenticate_inactive_runs presented verified found enabled idle,
          )
        ]
      ]

module _ {db : Prisma} (laws : IsPrisma db) (w : World) (s t : Store) (id : String) where
  -- Once a session is over, where no two sessions have the same id, whatever calls of the services
  -- follow: a request with an access token that verifies and names the session is refused, and nothing
  -- is written.
  pub Reachable-authenticate :
      UniqueIds s
      → phase id s.sessions ≡ over
      → Reachable db w s t
      → (req : RequestContext) {token : String} {p : JwtPayload}
      → resolve_access_token req ≡ some token
      → verify_access_token w token t.now ≡ some p
      → p.session_id ≡ some id
      → (e : Failure) × (authenticate db w req t ≡ (err e, t))
  Reachable-authenticate d ended path req {p = p} presented verified names =
      refused_without_session laws w req t presented verified (
        rw names (
          Reachable_none laws w s t id d ended path (usable (some id) p.sub t.now)
            (λ x h. (ground arith, ground arith))))
