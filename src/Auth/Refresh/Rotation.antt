-- ===== src/Auth/Refresh/Rotation.antt =====
-- auth.service.ts, refresh: each way it ends, and what a later refresh then does.
use secure_auth_x_pro.Prelude.{◌+◌, ◌≡◌, true, false, none, some, [], String, ◌==◌, ltb}
use secure_auth_x_pro.Schema.{
  Store, User, Session, SessionStatus, UserStatus, JwtPayload, same_status, info, warn, critical,
}
use secure_auth_x_pro.Prisma.{Prisma, IsPrisma}
use secure_auth_x_pro.Prisma.Table.{find_first}
use secure_auth_x_pro.Prisma.Rows.{Distinct, find_first-key}
use secure_auth_x_pro.World.{World}
use secure_auth_x_pro.Http.{RequestContext, safe_equal}
use secure_auth_x_pro.Exec.{app, ok, err}
use secure_auth_x_pro.Repositories.Users.{with_id}
use secure_auth_x_pro.Repositories.Sessions
use secure_auth_x_pro.Repositories.Sessions.{active_with_id}
use secure_auth_x_pro.Repositories.Effects
use secure_auth_x_pro.Repositories.Effects.{logged, noted, session_written, revoked_session}
use secure_auth_x_pro.Jwt.{verify_refresh_token}
use secure_auth_x_pro.Auth.Refresh.{
  refresh, check_reuse, end_reused, session_reused, session_inactive, refresh_invalid, check_expiry,
  end_expired, session_expired, rotate, remaining_ttl,
}
use secure_auth_x_pro.Auth.Responses.{SignedIn, to_auth_user}
use secure_auth_x_pro.Auth.Login.{account_disabled}
use secure_auth_x_pro.Jwt.{create_access_token, create_refresh_token}

-- A refresh token that verifies, names an active session, and whose session has a user.
pub record Presented (w : World) (token : String) (s : Store) : Type 0 where
  pub payload : JwtPayload
  pub session : Session
  pub user : User
  pub verified : verify_refresh_token w token s.now ≡ some payload
  pub found : find_first (active_with_id payload.jti) s.sessions ≡ some session
  pub owned : find_first (with_id session.user_id) s.users ≡ some user

module _ (w : World) where
  -- The refresh token that a rotation issues.
  abbrev pub new_token : {token : String} {s : Store} → Presented w token s → String
  new_token {s = s} c =
      create_refresh_token w c.user.id c.session.id
        (some (remaining_ttl c.session.expires_at s.now)) (w.random_uuid s.draws) s.now

  abbrev pub rotated : {token : String} {s : Store} → Presented w token s → Session → Session
  rotated {s = s} c x = record x {
    refresh_token_hash = w.sha256 (new_token c);
    expires_at = c.session.expires_at;
    last_active_at = s.now;
  }

  abbrev pub answer : {token : String} {s : Store} → Presented w token s → SignedIn
  answer {s = s} c = record {
    user = to_auth_user c.user;
    tokens = record {
      access_token =
          create_access_token w
            (record {
              user_id = c.user.id;
              email = c.user.email;
              role = c.user.role;
              session_id = c.session.id;
            })
            s.now;
      refresh_token = new_token c;
      csrf_token = w.random_hex (s.draws + 1);
      expires_in = remaining_ttl c.session.expires_at s.now;
      token_type = "Bearer";
    };
  }

-- The session is over, and the reuse is reported.
abbrev pub reused_store :
    {w : World} {token : String} {s : Store} → RequestContext → Presented w token s → Store
reused_store {s = s} req c = logged (some c.user.id) "auth.token_reuse" critical req [] (
    noted (some c.user.id) "refresh_token_reuse" critical req []
      (session_written c.session.id revoked_session s))

module _ {db : Prisma} (laws : IsPrisma db) (w : World) where
  pub refresh_invalid_runs :
      (token : String) (req : RequestContext) (s : Store)
      → verify_refresh_token w token s.now ≡ none
      → refresh db w token req s ≡ (err refresh_invalid, s)
  unfolding refresh
  refresh_invalid_runs token req s h = rw (refresh, h)

  pub refresh_inactive_runs :
      (token : String) (req : RequestContext) (s : Store) {p : JwtPayload}
      → verify_refresh_token w token s.now ≡ some p
      → find_first (active_with_id p.jti) s.sessions ≡ none
      → refresh db w token req s ≡ (err session_inactive, s)
  unfolding refresh
  refresh_inactive_runs token req s {p} h absent =
      rw (refresh, h, Effects.find_active_absent laws p.jti s absent)

  pub refresh_orphan_runs :
      (token : String) (req : RequestContext) (s : Store) {p : JwtPayload} {x : Session}
      → verify_refresh_token w token s.now ≡ some p
      → find_first (active_with_id p.jti) s.sessions ≡ some x
      → find_first (with_id x.user_id) s.users ≡ none
      → refresh db w token req s ≡ (err session_inactive, s)
  unfolding refresh
  refresh_orphan_runs token req s {p} h found orphan =
      rw (refresh, h, Effects.find_active_orphan laws p.jti s found orphan)

  pub refresh_reused_runs :
      (token : String) (req : RequestContext) (s : Store) (c : Presented w token s)
      → Distinct (λ (x : Session). x.id) s.sessions
      → (c.session.refresh_token_hash == w.sha256 token) ≡ false
      → refresh db w token req s ≡ (err session_reused, reused_store req c)
  unfolding refresh check_reuse safe_equal end_reused
  refresh_reused_runs token req s c d differs = rw (
    refresh,
    c.verified,
    Effects.find_active_runs laws c.payload.jti s c.found c.owned,
    check_reuse,
    safe_equal,
    differs,
    end_reused,
    Effects.revoke_runs laws c.session.id s
        (find_first-key (λ x. x.id) (active_with_id c.payload.jti) s.sessions d c.found),
    Effects.event_runs laws,
    Effects.log_runs laws,
  )

  pub refresh_expired_runs :
      (token : String) (req : RequestContext) (s : Store) (c : Presented w token s)
      → Distinct (λ (x : Session). x.id) s.sessions
      → (c.session.refresh_token_hash == w.sha256 token) ≡ true
      → ltb c.session.expires_at s.now ≡ true
      → refresh db w token req s ≡ (
        err session_expired,
        logged
            (some c.user.id)
            "session.expired"
            warn
            req
            []
            (session_written c.session.id (λ x. record x { status = SessionStatus.expired }) s),
      )
  unfolding refresh check_reuse safe_equal check_expiry end_expired Sessions.mark_expired
  refresh_expired_runs token req s c d same late = rw (
    refresh,
    c.verified,
    Effects.find_active_runs laws c.payload.jti s c.found c.owned,
    check_reuse,
    safe_equal,
    same,
    check_expiry,
    late,
    end_expired,
    Sessions.mark_expired,
    Effects.update_session_runs laws c.session.id (λ x. record x { status = SessionStatus.expired })
        s (find_first-key (λ x. x.id) (active_with_id c.payload.jti) s.sessions d c.found),
    Effects.log_runs laws,
  )

  pub refresh_disabled_runs :
      (token : String) (req : RequestContext) (s : Store) (c : Presented w token s)
      → (c.session.refresh_token_hash == w.sha256 token) ≡ true
      → ltb c.session.expires_at s.now ≡ false
      → same_status c.user.status UserStatus.disabled ≡ true
      → refresh db w token req s ≡ (err (app account_disabled), s)
  unfolding refresh check_reuse safe_equal check_expiry
  refresh_disabled_runs token req s c same valid disabled = rw (
    refresh,
    c.verified,
    Effects.find_active_runs laws c.payload.jti s c.found c.owned,
    check_reuse,
    safe_equal,
    same,
    check_expiry,
    valid,
    disabled,
  )

  pub refresh_rotates_runs :
      (token : String) (req : RequestContext) (s : Store) (c : Presented w token s)
      → Distinct (λ (x : Session). x.id) s.sessions
      → (c.session.refresh_token_hash == w.sha256 token) ≡ true
      → ltb c.session.expires_at s.now ≡ false
      → same_status c.user.status UserStatus.disabled ≡ false
      → refresh db w token req s ≡ (
        ok (answer w c),
        logged
            (some c.user.id)
            "auth.refresh_rotated"
            info
            req
            []
            (session_written c.session.id (rotated w c) (record s { draws = s.draws + 1 + 1 })),
      )
  unfolding refresh check_reuse safe_equal check_expiry rotate Sessions.rotate_token
  refresh_rotates_runs token req s c d same valid enabled = rw (
    refresh,
    c.verified,
    Effects.find_active_runs laws c.payload.jti s c.found c.owned,
    check_reuse,
    safe_equal,
    same,
    check_expiry,
    valid,
    enabled,
    rotate,
    Sessions.rotate_token,
    Effects.update_session_runs laws c.session.id (rotated w c)
        (record s { draws = s.draws + 1 + 1 })
        (find_first-key (λ x. x.id) (active_with_id c.payload.jti) s.sessions d c.found),
    Effects.log_runs laws,
  )
