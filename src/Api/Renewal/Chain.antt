-- ===== src/Api/Renewal/Chain.antt =====
-- Renewals in a row, from the tokens that issueTokens returned.
use secure_auth_x_pro.Prelude.{
  ℕ, suc, ◌+◌, ◌≤◌, length, ◌*◌, arith, ◌/◌, ◌<◌, ◌≡◌, refl, Bool, false, none, some, List, [], ◌∷◌,
  String, is_empty, All,
}
use secure_auth_x_pro.Schema.{Store, User, UserStatus, JwtPayload, same_status}
use secure_auth_x_pro.Prisma.{Prisma, IsPrisma}
use secure_auth_x_pro.Prisma.Table.{find_first}
use secure_auth_x_pro.World.{World}
use secure_auth_x_pro.Exec.{Failure}
use secure_auth_x_pro.Exec.Inversion.{Returns}
use secure_auth_x_pro.Repositories.Users.{with_id}
use secure_auth_x_pro.Jwt.{create_access_token, create_refresh_token}
use secure_auth_x_pro.Auth.Responses.{AuthTokens, SignedIn}
use secure_auth_x_pro.Auth.Tokens.{Device, issue_tokens, refresh_ttl}
use secure_auth_x_pro.Auth.Tokens.Issue
use secure_auth_x_pro.Auth.Renewal.{IsJose, IsAlive, issue_tokens-IsAlive}
use secure_auth_x_pro.System.Lifecycle.{UniqueIds}
use secure_auth_x_pro.Api.Environment.{ApiEnv}
use secure_auth_x_pro.Api.Requests.RoundTrip.{IsPlain}
use secure_auth_x_pro.Api.Cookies.{SetCookie, auth_cookies}
use secure_auth_x_pro.Api.Replies.{success}
use secure_auth_x_pro.Api.Pipeline.{Server}
use secure_auth_x_pro.Api.Pipeline.Limits.{Counted}
use secure_auth_x_pro.Api.Routes.{post_refresh}
use secure_auth_x_pro.Api.Renewal.{
  IsSendable, renewal_request, answer, after, after-IsAlive, judged, judged_room, post_refresh_runs,
}

-- A JSON web token is base64url text with dots, and a CSRF token is hexadecimal: neither is empty
-- nor needs an escape in a cookie.
pub record WritesPlainTokens (w : World) : Type 0 where
  pub token_plain : (key : String) (p : JwtPayload) → IsPlain (w.jwt_sign key p)
  pub token_filled : (key : String) (p : JwtPayload) → is_empty (w.jwt_sign key p) ≡ false
  pub hex_plain : (n : ℕ) → IsPlain (w.random_hex n)
  pub hex_filled : (n : ℕ) → is_empty (w.random_hex n) ≡ false

abbrev pub at_time : ℕ → Server → Server
at_time now v = record v { store = record v.store { now = now } }

module _ (db : Prisma) (w : World) (env : ApiEnv) (m : Failure → String) where
  -- At each of the times in turn, the browser's request for new tokens is answered with them, and
  -- the browser goes on with the cookies that it got.
  abbrev pub Renews : Server → List SetCookie → String → List ℕ → Type 0
  Renews v cookies csrf [] = Unit
  Renews v cookies csrf (now ∷ times) =
      let out = post_refresh db w env m (renewal_request cookies csrf) none (at_time now v) in
      (r : SignedIn) × (id : String) × (out.0.body
        ≡ success "TOKEN_REFRESHED" "Tokens refreshed." r id now)
      × Renews out.1 out.0.cookies r.tokens.csrf_token times

module _ {db : Prisma} (laws : IsPrisma db) (w : World) (jose : IsJose w)
    (plain : WritesPlainTokens w) (env : ApiEnv) (m : Failure → String) where
  renews :
      (v : Server) (tokens : AuthTokens) (a r until k : ℕ) (times : List ℕ)
      → Counted "unknown" k v.api_limits
      → k + length times ≤ env.rate_limit_max
      → IsSendable tokens
      → IsAlive w v.store tokens.refresh_token until
      → All (λ now. now / 1000 < until / 1000) times
      → Renews db w env m v (auth_cookies env tokens a r) tokens.csrf_token times
  unfolding create_access_token create_refresh_token
  renews v tokens a r until k [] counted room sendable alive h = tt
  renews v tokens a r until k (now ∷ times) counted room sendable alive (before, h) =
      let (passes, counted_then) =
        judged_room env tokens sendable a r v now k counted (omega arith) in
      let runs =
        post_refresh_runs env tokens sendable a r laws w jose v.store until now alive before m
          (at_time now v) refl passes in
      let next = answer env tokens sendable a r laws w jose v.store until now alive before in
      let ready = record (at_time now v) {
        store = after env tokens sendable a r laws w jose v.store until now alive before;
        api_limits = (judged env tokens sendable a r v now).1;
      } in
      rw runs (
        next,
        w.random_uuid v.store.draws,
        refl,
        renews ready next.tokens w.jwt_access_ttl next.tokens.expires_in until (suc k) times
            counted_then (omega arith)
            (record {
              access_plain = plain.token_plain _ _;
              refresh_plain = plain.token_plain _ _;
              csrf_plain = plain.hex_plain _;
              refresh_filled = plain.token_filled _ _;
              csrf_filled = plain.hex_filled _;
            })
            (after-IsAlive env tokens sendable a r laws w jose v.store until now alive before) h,
      )

  issued-IsSendable :
      (user : User) (device : Device) (remember_me : Bool) (s : Store)
      → IsSendable (Issue.tokens_of w user device remember_me s)
  unfolding create_access_token create_refresh_token
  issued-IsSendable user device remember_me s = record {
    access_plain = plain.token_plain _ _;
    refresh_plain = plain.token_plain _ _;
    csrf_plain = plain.hex_plain _;
    refresh_filled = plain.token_filled _ _;
    csrf_filled = plain.hex_filled _;
  }

  -- Once tokens were issued to a user who is not disabled, the browser that got them as cookies can
  -- renew them again and again: at each of any times whose second is before the second in which the
  -- session ends, POST /auth/refresh with the cookies of the response before, and their CSRF token
  -- as the header, answers with new tokens. The requests are the only ones that the server gets.
  pub issue_tokens-post_refresh :
      (user : User) (device : Device) (remember_me : Bool) (s : Store) {tokens : AuthTokens}
      {t : Store} (v : Server) (k : ℕ) (times : List ℕ)
      → Counted "unknown" k v.api_limits
      → k + length times ≤ env.rate_limit_max
      → UniqueIds s
      → find_first (with_id user.id) s.users ≡ some user
      → same_status user.status UserStatus.disabled ≡ false
      → Returns (issue_tokens db w user device remember_me) s tokens t
      → All (λ now. now / 1000 < (s.now + refresh_ttl w remember_me * 1000) / 1000) times
      → Renews db w env m
          (record v { store = t })
          (auth_cookies env tokens w.jwt_access_ttl tokens.expires_in)
          tokens.csrf_token
          times
  issue_tokens-post_refresh user device remember_me s {tokens} v k times counted room d owned
        enabled ran h =
      let alive = issue_tokens-IsAlive laws w user device remember_me s d owned enabled ran in
      let (_, er, _) = Issue.issue_tokens_inv w user device remember_me laws s ran in
      renews (record v { store = _ }) tokens w.jwt_access_ttl tokens.expires_in _ k times counted
        room (rw er (issued-IsSendable user device remember_me s)) alive h
