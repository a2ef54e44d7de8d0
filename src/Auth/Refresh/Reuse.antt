-- ===== src/Auth/Refresh/Reuse.antt =====
-- auth.service.ts, refresh: when it succeeds, and how a stolen token is found out.
use secure_auth_x_pro.Prelude.{
  ℕ, ◌+◌, ◌≡◌, refl, ap, ◌≢◌, true, false, none, some, List, [], String, ◌==◌, eq_iff, arith, ltb,
  ◌↔◌, inl, inr, Bool-cases, Option-cases,
}
use secure_auth_x_pro.Schema.{Store, Session, UserStatus, JwtPayload, same_status, info}
use secure_auth_x_pro.Prisma.{Prisma, IsPrisma}
use secure_auth_x_pro.Prisma.Table.{find_first, set_first}
use secure_auth_x_pro.Prisma.Rows.{
  Distinct, find_first-rewritten, find_first-written, find_first-none, set_first-Distinct,
}
use secure_auth_x_pro.World.{World}
use secure_auth_x_pro.Http.{RequestContext}
use secure_auth_x_pro.Exec.{err}
use secure_auth_x_pro.Exec.Inversion.{Returns, refused, returned_value, returned_store}
use secure_auth_x_pro.Repositories.Users.{with_id}
use secure_auth_x_pro.Repositories.Sessions.{active_with_id}
use secure_auth_x_pro.Repositories.Effects.{logged, session_written, revoked_session}
use secure_auth_x_pro.Jwt.{verify_refresh_token}
use secure_auth_x_pro.Auth.Responses.{SignedIn}
use secure_auth_x_pro.Auth.Refresh.{refresh, session_reused, session_inactive}
use secure_auth_x_pro.Auth.Refresh.Rotation

abbrev pub session_id : Session → String
session_id x = x.id

-- The token is the session's last one, and neither the session's time nor its user refuses it.
pub record IsAccepted (w : World) (token : String) (s : Store) (c : Rotation.Presented w token s)
    : Type 0 where
  pub current : (c.session.refresh_token_hash == w.sha256 token) ≡ true
  pub in_time : ltb c.session.expires_at s.now ≡ false
  pub enabled : same_status c.user.status UserStatus.disabled ≡ false

-- The store after the session's token was exchanged.
abbrev pub rotated_store :
    {w : World} {token : String} {s : Store} → RequestContext → Rotation.Presented w token s → Store
rotated_store {w = w} {s = s} req c =
    logged (some c.user.id) "auth.refresh_rotated" info req []
      (session_written c.session.id (Rotation.rotated w c) (record s { draws = s.draws + 1 + 1 }))

-- No active session has the id of a revoked one.
pub revoked_none :
    (id : String) (rows : List Session)
    → Distinct session_id rows
    → find_first
        (active_with_id (some id))
        (set_first (λ x. session_id x == id) revoked_session rows)
      ≡ none
revoked_none id rows d =
    find_first-none (active_with_id (some id))
      (set_first (λ x. session_id x == id) revoked_session rows)
      (find_first-written session_id (active_with_id (some id)) revoked_session id rows d
        (λ x h. ground arith) (λ x. ground arith))

module _ {db : Prisma} (laws : IsPrisma db) (w : World) where
  presented :
      (token : String) (req : RequestContext) (s : Store) {r : SignedIn} {t : Store}
      → Returns (refresh db w token req) s r t
      → Rotation.Presented w token s
  presented token req s ran = elim (Option-cases (verify_refresh_token w token s.now)) [
    | inl invalid ↦ absurd (refused (Rotation.refresh_invalid_runs laws w token req s invalid) ran)
    | inr (p, verified) ↦ elim (Option-cases (find_first (active_with_id p.jti) s.sessions)) [
      | inl inactive ↦
          absurd (refused (Rotation.refresh_inactive_runs laws w token req s verified inactive) ran)
      | inr (x, found) ↦ elim (Option-cases (find_first (with_id x.user_id) s.users)) [
        | inl orphan ↦
            absurd
              (refused (Rotation.refresh_orphan_runs laws w token req s verified found orphan) ran)
        | inr (u, owned) ↦ record {
          payload = p;
          session = x;
          user = u;
          verified = verified;
          found = found;
          owned = owned;
        }
      ]
    ]
  ]

  accepted :
      (token : String) (req : RequestContext) (s : Store) (c : Rotation.Presented w token s)
      → Distinct session_id s.sessions
      → {r : SignedIn} {t : Store} → Returns (refresh db w token req) s r t
      → IsAccepted w token s c
  accepted token req s c d ran =
      elim (Bool-cases (c.session.refresh_token_hash == w.sha256 token)) [
        | inr differs ↦
            absurd (refused (Rotation.refresh_reused_runs laws w token req s c d differs) ran)
        | inl same ↦ elim (Bool-cases (ltb c.session.expires_at s.now)) [
          | inl late ↦
              absurd (refused (Rotation.refresh_expired_runs laws w token req s c d same late) ran)
          | inr in_time ↦ elim (Bool-cases (same_status c.user.status UserStatus.disabled)) [
            | inl disabled ↦ absurd (
                refused (Rotation.refresh_disabled_runs laws w token req s c same in_time disabled)
                  ran)
            | inr enabled ↦ record { current = same; in_time = in_time; enabled = enabled }
          ]
        ]
      ]

  -- A refresh returns exactly when the token verifies, names an active session that has a user and
  -- whose hash it matches, before the session's end, the user not being disabled. It then answers
  -- with the user and new tokens, and leaves the session with the hash of the new refresh token
  -- and the end that it had.
  pub refresh_lem :
      (token : String) (req : RequestContext) (s : Store)
      → Distinct session_id s.sessions
      → (r : SignedIn) (t : Store)
      → Returns (refresh db w token req) s r t ↔ (
          (c : Rotation.Presented w token s) × IsAccepted w token s c
          × (r ≡ Rotation.answer w c)
          × (t ≡ rotated_store req c))
  refresh_lem token req s d r t = (
    λ ran.
        let c = presented token req s ran in
        let a = accepted token req s c d ran in
        let runs =
          Rotation.refresh_rotates_runs laws w token req s c d a.current a.in_time a.enabled in
        (c, a, returned_value ran runs, returned_store ran runs),
    λ (c, a, er, et).
        rw (er, et)
          (Rotation.refresh_rotates_runs laws w token req s c d a.current a.in_time a.enabled),
  )

  -- A token whose session has another hash is refused as a reuse; the session is then over: a
  -- later refresh, by whatever token that names the session and at whatever time, finds it inactive.
  pub refresh-refresh :
      (token : String) (req : RequestContext) (s : Store) (c : Rotation.Presented w token s)
      → Distinct session_id s.sessions
      → c.session.refresh_token_hash ≢ w.sha256 token
      → (other : String) (later_req : RequestContext) (later : ℕ) {p : JwtPayload}
      → verify_refresh_token w other later ≡ some p
      → p.jti ≡ some c.session.id
      → ((refresh db w token req s).0 ≡ err session_reused)
        × ((refresh db w other later_req (record (refresh db w token req s).1 { now = later })).0
            ≡ err session_inactive)
  refresh-refresh token req s c d differs other later_req later {p} verified names =
      let unequal : (c.session.refresh_token_hash == w.sha256 token) ≡ false =
        ground (arith, eq_iff c.session.refresh_token_hash (w.sha256 token)) in
      rw (Rotation.refresh_reused_runs laws w token req s c d unequal) (
        refl,
        ap (λ x. x.0)
            (Rotation.refresh_inactive_runs laws w other later_req
              (record (Rotation.reused_store req c) { now = later }) verified
              (rw names (revoked_none c.session.id s.sessions d))),
      )

  same_active :
      {token : String} {s : Store} (c : Rotation.Presented w token s) (x : Session)
      → active_with_id c.payload.jti (Rotation.rotated w c x) ≡ active_with_id c.payload.jti x
  same_active c x = elim (Option-cases c.payload.jti) [
    | inl absent ↦ rw absent
    | inr (id, given) ↦ rw given
  ]

  -- The exchanged token still names the session, which is still active.
  presented_again :
      {token : String} (req : RequestContext) {s : Store} (c : Rotation.Presented w token s)
      (later : ℕ)
      → Distinct session_id s.sessions
      → verify_refresh_token w token later ≡ some c.payload
      → Rotation.Presented w token (record (rotated_store req c) { now = later })
  presented_again req {s} c later d verified = record {
    payload = c.payload;
    session = Rotation.rotated w c c.session;
    user = c.user;
    verified = verified;
    found =
        find_first-rewritten session_id (active_with_id c.payload.jti) (Rotation.rotated w c)
          s.sessions d (λ x. same_active c x) c.found;
    owned = c.owned;
  }

  -- Once a token was exchanged, presenting it again is refused as a reuse, provided that the new
  -- token has another hash and the old one still verifies: and then the new one is refused too.
  pub refresh-refresh-refresh :
      (token : String) (req : RequestContext) (s : Store) (c : Rotation.Presented w token s)
      → Distinct session_id s.sessions
      → {r : SignedIn} {t : Store} → Returns (refresh db w token req) s r t
      → w.sha256 r.tokens.refresh_token ≢ w.sha256 token
      → (again : RequestContext) (later : ℕ) → verify_refresh_token w token later ≡ some c.payload
      → (last : RequestContext) (latest : ℕ) {p : JwtPayload}
      → verify_refresh_token w r.tokens.refresh_token latest ≡ some p
      → p.jti ≡ some c.session.id
      → let u = record t { now = later } in
        let v = (refresh db w token again u).1 in
        ((refresh db w token again u).0 ≡ err session_reused)
        × ((refresh db w r.tokens.refresh_token last (record v { now = latest })).0
            ≡ err session_inactive)
  unfolding presented_again
  refresh-refresh-refresh token req s c d {r} {t} ran differs again later verified last latest {p}
        verified_new names =
      let a = accepted token req s c d ran in
      let runs =
        Rotation.refresh_rotates_runs laws w token req s c d a.current a.in_time a.enabled in
      let er : r ≡ Rotation.answer w c = returned_value ran runs in
      let et : t ≡ rotated_store req c = returned_store ran runs in
      rw et (
        refresh-refresh token again (record (rotated_store req c) { now = later })
          (presented_again req c later d verified)
          (set_first-Distinct session_id _ (Rotation.rotated w c) s.sessions (λ x. refl) d)
          (λ e. differs (rw er e)) r.tokens.refresh_token last latest verified_new names)
