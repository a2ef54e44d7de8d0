-- ===== src/Api/Pipeline.antt =====
-- apps/api/src/app.ts, routes/index.ts and middlewares/security.ts: a request on its way to a
-- handler, through the request id, the limiter of the whole API and those of two routers.
pub mod Failures
pub mod Limits
use secure_auth_x_pro.Prelude.{ℕ, ◌+◌, Bool, Option, none, some, [], String, lookup}
use secure_auth_x_pro.Schema.{Store}
use secure_auth_x_pro.World.{World}
use secure_auth_x_pro.Http.{get_client_ip, or_else}
use secure_auth_x_pro.Exec.{Action, Failure}
use secure_auth_x_pro.RateLimit.{Buckets, Verdict, limit_request}
use secure_auth_x_pro.Api.Environment.{ApiEnv}
use secure_auth_x_pro.Api.Requests.{HttpRequest, to_request_context}
use secure_auth_x_pro.Api.Replies.{Reply, HttpResponse, error, finish, with_request_id}

-- The store, and the buckets of the limiters that security.ts and the two routers create.
pub record Server : Type 0 where
  pub store : Store
  pub api_limits : Buckets
  pub auth_limits : Buckets
  pub mfa_limits : Buckets

-- What the request with an id does to the server.
abbrev pub Stage : Type 0 → Type 0
Stage A = String → Server → HttpResponse A × Server

-- A limiter's answer to a request that is over the limit.
abbrev refusal : {A : Type 0} → Verdict → String → ℕ → String → ℕ → HttpResponse A
refusal verdict message status request_id now = record {
  status = status;
  body = error (record {
    code = "RATE_LIMIT_EXCEEDED";
    message = message;
    details = none;
    request_id = none;
    timestamp = now;
  });
  cookies = [];
  request_id = request_id;
  rate_limit = some verdict;
}

-- The headers of a limiter, unless a later one has set its own.
abbrev with_headers : {A : Type 0} → Verdict → HttpResponse A × Server → HttpResponse A × Server
with_headers verdict (r, v) = (record r { rate_limit = or_else r.rate_limit (some verdict) }, v)

-- What a limiter does once it has its verdict.
abbrev pub by_verdict : {A : Type 0} → Verdict → Option ℕ → String → Stage A → Stage A
by_verdict verdict none message next id v = with_headers verdict (next id v)
by_verdict verdict (some status) message next id v =
    (refusal verdict message status id v.store.now, v)

module _ (env : ApiEnv) (req : HttpRequest) where
  -- createRateLimiter, for a limit and the buckets so far.
  unfoldable pub judge : ℕ → Buckets → ℕ → Verdict × Buckets
  judge limit buckets now =
      limit_request (get_client_ip (to_request_context req)) env.rate_limit_window_ms limit now
        buckets

  -- apiRateLimiter
  unfoldable pub behind_api : {A : Type 0} → Stage A → Stage A
  behind_api next id v =
      let (verdict, left) = judge env.rate_limit_max v.api_limits v.store.now in
      by_verdict verdict verdict.status "Too many requests. Please try again later." next id
        (record v { api_limits = left })

  -- The limiter of the authentication routes.
  unfoldable pub behind_auth : {A : Type 0} → Stage A → Stage A
  behind_auth next id v =
      let (verdict, left) = judge env.auth_rate_limit_max v.auth_limits v.store.now in
      by_verdict verdict verdict.status "Too many authentication attempts. Please try again later."
        next id (record v { auth_limits = left })

  -- The limiter of the routes that complete a login.
  unfoldable pub behind_mfa : {A : Type 0} → Stage A → Stage A
  behind_mfa next id v =
      let (verdict, left) = judge env.auth_rate_limit_max v.mfa_limits v.store.now in
      by_verdict verdict verdict.status "Too many authentication attempts. Please try again later."
        next id (record v { mfa_limits = left })

module _ (w : World) (env : ApiEnv) (message_of : Failure → String) where
  -- The handler and the error handler.
  unfoldable pub answered : {A : Type 0} → Action (Reply A) → Stage A
  answered handler id v = (
    finish env message_of (handler v.store).0 id v.store.now,
    record v { store = (handler v.store).1 },
  )

module _ (w : World) (req : HttpRequest) where
  -- The request gets its id first.
  unfoldable pub enter : {A : Type 0} → Stage A → Server → HttpResponse A × Server
  enter next v = with_request_id w req (λ id s. next id (record v { store = s })) v.store

module _ (w : World) (env : ApiEnv) (message_of : Failure → String) (req : HttpRequest) where
  unfoldable pub run : {A : Type 0} → Action (Reply A) → Server → HttpResponse A × Server
  run handler v = enter w req (behind_api env req (answered w env message_of handler)) v

  unfoldable pub run_auth : {A : Type 0} → Action (Reply A) → Server → HttpResponse A × Server
  run_auth handler v =
      enter w req (behind_api env req (behind_auth env req (answered w env message_of handler))) v

  unfoldable pub run_mfa : {A : Type 0} → Action (Reply A) → Server → HttpResponse A × Server
  run_mfa handler v =
      enter w req (behind_api env req (behind_mfa env req (answered w env message_of handler))) v
