-- ===== src/Api/Renewal.antt =====
-- auth.routes.ts, auth.controller.ts, csrf.ts, cookies.ts and auth.service.ts together: a browser
-- that sends back the cookies it was given, and the CSRF token among them as a header.
pub mod Chain
use secure_auth_x_pro.Prelude.{
  ℕ, suc, ◌≤◌, ◌+◌, ◌*◌, ◌/◌, ◌<◌, ◌≡◌, refl, sym, ◌∙◌, ap, Bool, true, false, Option, none, some,
  List, [], ◌∷◌, String, ◌==◌, eq_refl, eq_iff, arith, is_empty, map, lookup, All, if◌then◌else◌,
}
use secure_auth_x_pro.Schema.{Store, User, UserStatus, same_status}
use secure_auth_x_pro.Prisma.{Prisma, IsPrisma}
use secure_auth_x_pro.Prisma.Table.{find_first}
use secure_auth_x_pro.Prisma.Rows.{Distinct}
use secure_auth_x_pro.World.{World}
use secure_auth_x_pro.Http.{
  RequestContext, get_client_ip, safe_equal, access_token_cookie, refresh_token_cookie, as_text,
}
use secure_auth_x_pro.Text.{every, same_number, is_space}
use secure_auth_x_pro.Text.Split.{lacks}
use secure_auth_x_pro.Exec.{Failure, ok}
use secure_auth_x_pro.Exec.Inversion.{Returns}
use secure_auth_x_pro.Repositories.Users.{with_id}
use secure_auth_x_pro.Auth.Responses.{AuthTokens, SignedIn}
use secure_auth_x_pro.Auth.Tokens.{Device, issue_tokens, refresh_ttl}
use secure_auth_x_pro.Auth.Renewal
use secure_auth_x_pro.Auth.Renewal.{IsJose, IsAlive}
use secure_auth_x_pro.Auth.Refresh
use secure_auth_x_pro.Auth.Refresh.Rotation
use secure_auth_x_pro.Auth.Refresh.Reuse.{rotated_store}
use secure_auth_x_pro.System.Lifecycle.{UniqueIds}
use secure_auth_x_pro.Api.Environment.{ApiEnv}
use secure_auth_x_pro.Api.Guards.{require_csrf, csrf_cookie}
use secure_auth_x_pro.Api.Requests.{HttpRequest, to_request_context}
use secure_auth_x_pro.Api.Requests.RoundTrip.{
  cookie_header, IsPlain, IsCookie, to_request_context-cookie_header, cookie_name,
}
use secure_auth_x_pro.Api.Cookies.{SetCookie, auth_cookies}
use secure_auth_x_pro.Api.Replies.{HttpResponse, Body, reply, success, with_request_id}
use secure_auth_x_pro.Api.Controllers.Auth
use secure_auth_x_pro.Api.Routes.{post_refresh}
use secure_auth_x_pro.RateLimit.{Buckets, Verdict}
use secure_auth_x_pro.Api.Pipeline.{Server, run, enter, answered, behind_api, judge}
use secure_auth_x_pro.Api.Pipeline.Limits.{Counted, judge-Counted}

-- The cookies of a browser that had none before the response.
abbrev pub jar_of : List SetCookie → List (String × String)
jar_of cookies = map (λ c. (c.name, c.value)) cookies

-- The request of a browser with these cookies, which copies the CSRF token to the header.
abbrev pub renewal_request : List SetCookie → String → HttpRequest
renewal_request cookies csrf = record {
  method = "POST";
  path = "/api/v1/auth/refresh";
  headers = ("cookie", cookie_header (jar_of cookies)) ∷ ("x-csrf-token", csrf) ∷ [];
}

-- The tokens need no escape in a cookie, and are not empty.
pub record IsSendable (tokens : AuthTokens) : Type 0 where
  pub access_plain : IsPlain tokens.access_token
  pub refresh_plain : IsPlain tokens.refresh_token
  pub csrf_plain : IsPlain tokens.csrf_token
  pub refresh_filled : is_empty tokens.refresh_token ≡ false
  pub csrf_filled : is_empty tokens.csrf_token ≡ false

pair-IsCookie :
    (name value : String)
    → IsPlain name
    → is_empty name ≡ false
    → lacks b'=' name ≡ true
    → (name == "__proto__") ≡ false
    → IsPlain value
    → IsCookie (name, value)
pair-IsCookie name value plain named no_equals own h = record {
  name = plain;
  value = h;
  named = named;
  no_equals = no_equals;
  own = own;
}

constants-IsPlain : IsPlain access_token_cookie × IsPlain refresh_token_cookie × IsPlain csrf_cookie
unfolding every same_number is_space
constants-IsPlain = (
  record { dense = refl; no_semicolon = refl; no_percent = refl },
  record { dense = refl; no_semicolon = refl; no_percent = refl },
  record { dense = refl; no_semicolon = refl; no_percent = refl },
)

module _ (env : ApiEnv) (tokens : AuthTokens) (sendable : IsSendable tokens)
    (access_age refresh_age : ℕ) where
  abbrev pub sent : List SetCookie
  sent = auth_cookies env tokens access_age refresh_age

  sent-IsCookie : All IsCookie (jar_of sent)
  unfolding auth_cookies every same_number
  sent-IsCookie = (
    pair-IsCookie access_token_cookie tokens.access_token (constants-IsPlain.0) refl refl refl
        sendable.access_plain,
    (
      pair-IsCookie refresh_token_cookie tokens.refresh_token (constants-IsPlain.1) refl refl refl
          sendable.refresh_plain,
      (
        pair-IsCookie csrf_cookie tokens.csrf_token (constants-IsPlain.2) refl refl refl
            sendable.csrf_plain,
        tt,
      ),
    ),
  )

  sent-Distinct : Distinct cookie_name (jar_of sent)
  unfolding auth_cookies
  sent-Distinct = ((refl, (refl, tt)), ((refl, tt), (tt, tt)))

  abbrev pub ctx : RequestContext
  ctx = to_request_context (renewal_request sent tokens.csrf_token)

  -- The handlers see the cookies that were set.
  read_cookies_back : ctx.cookies ≡ jar_of sent
  unfolding lookup
  read_cookies_back =
      to_request_context-cookie_header (renewal_request sent tokens.csrf_token) (jar_of sent)
        sent-IsCookie sent-Distinct refl

  csrf_cookie_back : lookup csrf_cookie ctx.cookies ≡ some tokens.csrf_token
  unfolding lookup auth_cookies
  csrf_cookie_back = rw read_cookies_back

  refresh_cookie_back : lookup refresh_token_cookie ctx.cookies ≡ some tokens.refresh_token
  unfolding lookup auth_cookies
  refresh_cookie_back = rw read_cookies_back

  csrf_header_back : as_text (lookup "x-csrf-token" ctx.headers) ≡ some tokens.csrf_token
  unfolding to_request_context lookup
  csrf_header_back = refl

  csrf_passes : (s : Store) → require_csrf ctx s ≡ (ok tt, s)
  unfolding require_csrf safe_equal
  csrf_passes s = rw (
    require_csrf,
    csrf_cookie_back,
    csrf_header_back,
    sendable.csrf_filled,
    eq_refl tokens.csrf_token,
  )

  abbrev pub browser : HttpRequest
  browser = renewal_request sent tokens.csrf_token

  -- What the limiter of the API makes of the request.
  abbrev pub judged : Server → ℕ → Verdict × Buckets
  judged v now = judge env browser env.rate_limit_max v.api_limits now

  browser_ip : get_client_ip (to_request_context browser) ≡ "unknown"
  unfolding get_client_ip to_request_context lookup
  browser_ip = refl

  pub judged_room :
      (v : Server) (now k : ℕ)
      → Counted "unknown" k v.api_limits
      → suc k ≤ env.rate_limit_max
      → ((judged v now).0.status ≡ none) × Counted "unknown" (suc k) (judged v now).1
  judged_room v now k h room =
      let counted =
        judge-Counted env browser env.rate_limit_max k now v.api_limits (rw browser_ip h) room in
      (counted.0, rw browser_ip at counted.1)

  module _ {db : Prisma} (laws : IsPrisma db) (w : World) (jose : IsJose w) (s : Store)
      (until now : ℕ) (alive : IsAlive w s tokens.refresh_token until)
      (before : now / 1000 < until / 1000) where
    -- The request has got its id.
    pub draws-IsAlive : IsAlive w (record s { draws = s.draws + 1 }) tokens.refresh_token until
    draws-IsAlive = record {
      session = alive.session;
      user = alive.user;
      payload = alive.payload;
      drawn = alive.drawn;
      distinct = alive.distinct;
      found = alive.found;
      owned = alive.owned;
      enabled = alive.enabled;
      ends = alive.ends;
      bound = alive.bound;
      id_drawn = alive.id_drawn;
      signed = alive.signed;
      names = alive.names;
      issuer = alive.issuer;
      audience = alive.audience;
      lasts = alive.lasts;
    }

    abbrev pub answer : SignedIn
    answer = Rotation.answer w (
        Renewal.presented laws w jose tokens.refresh_token ctx (record s { draws = s.draws + 1 })
          until now draws-IsAlive before)

    abbrev pub after : Store
    after = rotated_store ctx (
        Renewal.presented laws w jose tokens.refresh_token ctx (record s { draws = s.draws + 1 })
          until now draws-IsAlive before)

    pub after-IsAlive : IsAlive w after answer.tokens.refresh_token until
    after-IsAlive =
        Renewal.renewed-IsAlive laws w jose tokens.refresh_token ctx
          (record s { draws = s.draws + 1 }) until now draws-IsAlive before

    controller_runs :
        Returns
          (Auth.refresh db w env none ctx)
          (record s { draws = s.draws + 1; now = now })
          (reply "TOKEN_REFRESHED" "Tokens refreshed." answer
            (auth_cookies env answer.tokens w.jwt_access_ttl answer.tokens.expires_in))
          after
    unfolding Auth.refresh
    controller_runs = rw (
      Auth.refresh,
      refresh_cookie_back,
      sendable.refresh_filled,
      Renewal.renewed laws w jose tokens.refresh_token ctx (record s { draws = s.draws + 1 }) until
          now draws-IsAlive before,
    )

    pub post_refresh_runs :
        (m : Failure → String) (v : Server)
        → v.store ≡ record s { now = now }
        → (judged v now).0.status ≡ none
        → post_refresh db w env m browser none v ≡ (
          record {
            status = 200;
            body = success "TOKEN_REFRESHED" "Tokens refreshed." answer (w.random_uuid s.draws) now;
            cookies = auth_cookies env answer.tokens w.jwt_access_ttl answer.tokens.expires_in;
            request_id = w.random_uuid s.draws;
            rate_limit = some (judged v now).0;
          },
          record v { store = after; api_limits = (judged v now).1 },
        )
    unfolding post_refresh run enter answered behind_api with_request_id lookup
    post_refresh_runs m v here passes = rw (here, passes, csrf_passes, controller_runs)
