-- ===== src/Auth/Renewal.antt =====
-- auth.service.ts: the tokens that issueTokens returns, and each refresh after it, keep a session in
-- use until its end.
use secure_auth_x_pro.Prelude.{
  ℕ, ◌+◌, ◌*◌, ◌/◌, ◌≤◌, ◌<◌, ◌≡◌, refl, ◌∙◌, ap, Bool, false, Option, none, some, String, eq_iff,
  eq_refl, arith, get_or, le→ltb,
}
use secure_auth_x_pro.Schema.{Store, User, Session, UserStatus, JwtPayload, same_status}
use secure_auth_x_pro.Prisma.{Prisma, IsPrisma}
use secure_auth_x_pro.Prisma.Table.{find_first}
use secure_auth_x_pro.Prisma.Rows.{find_first-rewritten, set_first-Distinct}
use secure_auth_x_pro.Prisma.Append.{any-All, find_first-append}
use secure_auth_x_pro.World.{World}
use secure_auth_x_pro.Http.{RequestContext}
use secure_auth_x_pro.Exec.Inversion.{Returns}
use secure_auth_x_pro.Repositories.Users.{with_id}
use secure_auth_x_pro.Repositories.Sessions.{active_with_id, clashes}
use secure_auth_x_pro.Jwt.{verify_refresh_token, create_refresh_token}
use secure_auth_x_pro.Auth.Responses.{AuthTokens}
use secure_auth_x_pro.Auth.Tokens.{Device, issue_tokens, refresh_ttl}
use secure_auth_x_pro.Auth.Tokens.Issue
use secure_auth_x_pro.Auth.Refresh.{refresh, remaining_ttl}
use secure_auth_x_pro.Auth.Refresh.Rotation
use secure_auth_x_pro.Auth.Refresh.Reuse.{session_id, refresh_lem, IsAccepted, rotated_store}
use secure_auth_x_pro.System.Lifecycle.{UniqueIds, UniqueIds-IsStable}

-- What jose documents of `jwtVerify` on what `SignJWT` signed with the same key, for the session
-- ids that the server draws: before the expiry, for the issuer and the audience of the token, it
-- gives a payload with the token's id.
pub record IsJose (w : World) : Type 0 where
  pub verifies :
      (key : String) (p : JwtPayload) (n now : ℕ)
      → p.jti ≡ some (w.random_uuid n)
      → now / 1000 < p.exp
      → (q : JwtPayload) × (w.jwt_verify key now p.iss p.aud (w.jwt_sign key p) ≡ some q)
        × (q.jti ≡ p.jti)

-- The session in use that a refresh token is bound to, until the time `until`.
pub record IsAlive (w : World) (s : Store) (token : String) (until : ℕ) : Type 0 where
  pub session : Session
  pub user : User
  pub payload : JwtPayload
  pub drawn : ℕ
  pub distinct : UniqueIds s
  pub found : find_first (active_with_id (some session.id)) s.sessions ≡ some session
  pub owned : find_first (with_id session.user_id) s.users ≡ some user
  pub enabled : same_status user.status UserStatus.disabled ≡ false
  pub ends : session.expires_at ≡ until
  pub bound : session.refresh_token_hash ≡ w.sha256 token
  pub id_drawn : session.id ≡ w.random_uuid drawn
  pub signed : token ≡ w.jwt_sign w.jwt_refresh_secret payload
  pub names : payload.jti ≡ some session.id
  pub issuer : payload.iss ≡ w.jwt_issuer
  pub audience : payload.aud ≡ w.jwt_audience
  pub lasts : until / 1000 ≤ payload.exp

-- The payload that createRefreshToken signs.
abbrev refresh_payload : World → String → String → Option ℕ → String → ℕ → JwtPayload
refresh_payload w user_id jti expires_in nonce now = record {
  sub = user_id;
  email = none;
  role = none;
  session_id = none;
  jti = some jti;
  nonce = some nonce;
  type = "refresh";
  iat = now / 1000;
  exp = (now + get_or expires_in w.jwt_refresh_ttl * 1000) / 1000;
  iss = w.jwt_issuer;
  aud = w.jwt_audience;
}

-- The new token lasts at least as many seconds as the session.
lasting :
    (expires_at until now : ℕ)
    → expires_at ≡ until
    → now / 1000 < until / 1000
    → until / 1000 ≤ (now + remaining_ttl expires_at now * 1000) / 1000
lasting expires_at until now h before = rw h (omega arith)

module _ {db : Prisma} (laws : IsPrisma db) (w : World) where
  -- Issued tokens.
  pub issue_tokens-IsAlive :
      (user : User) (device : Device) (remember_me : Bool) (s : Store) {tokens : AuthTokens}
      {t : Store}
      → UniqueIds s
      → find_first (with_id user.id) s.users ≡ some user
      → same_status user.status UserStatus.disabled ≡ false
      → Returns (issue_tokens db w user device remember_me) s tokens t
      → IsAlive w t tokens.refresh_token (s.now + refresh_ttl w remember_me * 1000)
  unfolding create_refresh_token
  issue_tokens-IsAlive user device remember_me s d owned enabled ran =
      let (apart, er, et) = Issue.issue_tokens_inv w user device remember_me laws s ran in
      let new = Issue.session_of w user device remember_me s in
      rw (er, et)
        (record {
          session = new;
          user = user;
          payload =
              refresh_payload w user.id new.id (some (refresh_ttl w remember_me))
                (w.random_uuid (s.draws + 1)) s.now;
          drawn = s.draws;
          distinct = UniqueIds-IsStable.appended s.sessions new apart d;
          found =
              find_first-append (active_with_id (some new.id)) s.sessions new
                (any-All (clashes new) (active_with_id (some new.id)) s.sessions
                  (λ x h. ground arith) apart)
                (ground (arith, eq_iff new.id new.id));
          owned = owned;
          enabled = enabled;
          ends = refl;
          bound = refl;
          id_drawn = refl;
          signed = refl;
          names = refl;
          issuer = refl;
          audience = refl;
          lasts = omega arith;
        })

  module _ (jose : IsJose w) (token : String) (req : RequestContext) (s : Store) (until now : ℕ)
      (alive : IsAlive w s token until) (before : now / 1000 < until / 1000) where
    abbrev later : Store
    later = record s { now = now }

    verified :
        (q : JwtPayload) × (verify_refresh_token w token now ≡ some q)
        × (q.jti ≡ some alive.session.id)
    unfolding verify_refresh_token
    verified =
        let v =
          jose.verifies w.jwt_refresh_secret alive.payload alive.drawn now
            (alive.names ∙ ap some alive.id_drawn) (omega (arith, alive.lasts)) in
        (v.0, rw (alive.signed, ← alive.issuer, ← alive.audience) v.1, v.2 ∙ alive.names)

    -- The token as it is presented.
    pub presented : Rotation.Presented w token later
    presented = record {
      payload = verified.0;
      session = alive.session;
      user = alive.user;
      verified = verified.1;
      found = rw verified.2 alive.found;
      owned = alive.owned;
    }

    accepted : IsAccepted w token later presented
    unfolding presented
    accepted = record {
      current = rw alive.bound (eq_refl (w.sha256 token));
      in_time = rw alive.ends (le→ltb until now (omega arith));
      enabled = alive.enabled;
    }

    -- The refresh returns.
    pub renewed :
        Returns
          (refresh db w token req)
          later
          (Rotation.answer w presented)
          (rotated_store req presented)
    renewed =
        (refresh_lem laws w token req later alive.distinct _ _).1 (presented, accepted, refl, refl)

    -- The new token is bound to the same session, until the same time.
    pub renewed-IsAlive :
        IsAlive w
          (rotated_store req presented)
          (Rotation.answer w presented).tokens.refresh_token
          until
    unfolding presented create_refresh_token
    renewed-IsAlive = record {
      session = Rotation.rotated w presented alive.session;
      user = alive.user;
      payload =
          refresh_payload w alive.user.id alive.session.id
            (some (remaining_ttl alive.session.expires_at now)) (w.random_uuid s.draws) now;
      drawn = alive.drawn;
      distinct =
          set_first-Distinct session_id _ (Rotation.rotated w presented) s.sessions (λ x. refl)
            alive.distinct;
      found =
          find_first-rewritten session_id (active_with_id (some alive.session.id))
            (Rotation.rotated w presented) s.sessions alive.distinct (λ x. refl) alive.found;
      owned = alive.owned;
      enabled = alive.enabled;
      ends = alive.ends;
      bound = refl;
      id_drawn = alive.id_drawn;
      signed = refl;
      names = refl;
      issuer = refl;
      audience = refl;
      lasts = lasting alive.session.expires_at until now alive.ends before;
    }
