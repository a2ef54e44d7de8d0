-- ===== src/Api/Routes/Refusals.antt =====
-- Requests that a guard in front of a handler refuses, and those that it lets through.
use secure_auth_x_pro.Prelude.{
  ℕ, ◌+◌, ◌≡◌, refl, ◌∙◌, true, Option, none, some, String, lookup, inl, inr, arith, ◌⊎◌,
  Bool-cases,
}
use secure_auth_x_pro.Schema.{Store, UserRole, same_role}
use secure_auth_x_pro.Prisma.{Prisma, IsPrisma}
use secure_auth_x_pro.World.{World}
use secure_auth_x_pro.Http.{RequestContext, non_empty}
use secure_auth_x_pro.Exec.{AppError, Failure, Action, app, err, ◌>>◌}
use secure_auth_x_pro.Api.Environment.{ApiEnv}
use secure_auth_x_pro.Api.Requests.{HttpRequest, to_request_context}
use secure_auth_x_pro.Api.Guards.{AuthenticatedUser, to_authenticated, require_admin, admins_only}
use secure_auth_x_pro.Api.Guards.Access.{Authorized, denied_or_authorized, authenticate_passes_runs}
use secure_auth_x_pro.Api.Replies.{
  Reply, HttpResponse, error_handler, describe_failure, with_request_id, with_id,
}
use secure_auth_x_pro.RateLimit.{Verdict}
use secure_auth_x_pro.Api.Pipeline.{Server, by_verdict, judge, answered, behind_api, enter, run}
use secure_auth_x_pro.Api.Pipeline.Limits.{judge_status}
use secure_auth_x_pro.Api.Pipeline.Failures.{received, received_with}
use secure_auth_x_pro.Api.Routes.{authorized, administered}

module _ {db : Prisma} (laws : IsPrisma db) (w : World) (env : ApiEnv) (m : Failure → String)
    (req : HttpRequest) where
  abbrev pub ctx : RequestContext
  ctx = to_request_context req

  -- Refused as 401 or 403, with nothing written.
  abbrev pub Denies : {A : Type 0} → Action A → Store → Type 0
  Denies act s =
      (e : AppError) × ((e.status_code ≡ 401) ⊎ (e.status_code ≡ 403)) × (act s ≡ (err (app e), s))

  pub authorized_cases :
      {A : Type 0} (k : AuthenticatedUser → RequestContext → Action A) (s : Store)
      → Denies (authorized db w env m req k) s
        ⊎ ((c : Authorized w ctx s) × (authorized db w env m req k s
              ≡ k (to_authenticated c.user) ctx s))
  unfolding authorized
  authorized_cases k s = elim (denied_or_authorized laws w ctx s) [
    | inl (e, code, runs) ↦ inl (e, code, rw runs)
    | inr c ↦ inr (c, rw (authenticate_passes_runs laws w ctx s c))
  ]

  pub administered_cases :
      {A : Type 0} (k : AuthenticatedUser → RequestContext → Action A) (s : Store)
      → Denies (administered db w env m req k) s
        ⊎ ((c : Authorized w ctx s) × (same_role c.user.role UserRole.admin ≡ true)
            × (administered db w env m req k s ≡ k (to_authenticated c.user) ctx s))
  unfolding administered require_admin
  administered_cases k s =
      elim (authorized_cases (λ user c. require_admin (some user) >> k user c) s) [
        | inl denied ↦ inl denied
        | inr (c, runs) ↦ elim (Bool-cases (same_role c.user.role UserRole.admin)) [
          | inl admin ↦ inr (c, admin, runs ∙ rw admin)
          | inr other ↦ inl (admins_only, inr refl, runs ∙ rw other)
        ]
      ]

  -- The response is 401, 403 or that of the limiter, and the store is as it was, but for the random id
  -- of the request.
  abbrev pub IsDenied : {A : Type 0} → HttpResponse A × Server → Server → Type 0
  IsDenied out v =
      ((out.0.status ≡ 401) ⊎ ((out.0.status ≡ 403) ⊎ (out.0.status ≡ 429)))
      × (out.1.store ≡ received req v.store)

  denied_by :
      {A : Type 0} (verdict : Verdict) (o : Option ℕ) (h : Action (Reply A)) (id : String)
      (v : Server)
      → (o ≡ none) ⊎ (o ≡ some 429)
      → Denies h v.store
      → let out =
          by_verdict verdict o "Too many requests. Please try again later."
            (answered w env m h)
            id
            v in
        ((out.0.status ≡ 401) ⊎ ((out.0.status ≡ 403) ⊎ (out.0.status ≡ 429)))
        × (out.1.store ≡ v.store)
  unfolding answered error_handler describe_failure
  denied_by verdict none h id v shape (e, inl code, runs) = rw runs (inl code, refl)
  denied_by verdict none h id v shape (e, inr code, runs) = rw runs (inr (inl code), refl)
  denied_by verdict (some status) h id v (inl never) denied = cc
  denied_by verdict (some status) h id v (inr e) denied = (inr (inr (ground arith)), refl)

  enter_denied :
      {A : Type 0} (o : Option String) (h : Action (Reply A)) (v : Server)
      → Denies h (received_with o v.store)
      → let out =
          with_id {B = HttpResponse A × Server} w o
            (λ id s. behind_api env req (answered w env m h) id (record v { store = s }))
            v.store in
        ((out.0.status ≡ 401) ⊎ ((out.0.status ≡ 403) ⊎ (out.0.status ≡ 429)))
        × (out.1.store ≡ received_with o v.store)
  unfolding behind_api
  enter_denied (some id) h v denied =
      denied_by (judge env req env.rate_limit_max v.api_limits v.store.now).0
        (judge env req env.rate_limit_max v.api_limits v.store.now).0.status h id
        (record v { api_limits = (judge env req env.rate_limit_max v.api_limits v.store.now).1 })
        (judge_status env req env.rate_limit_max v.api_limits v.store.now) denied
  enter_denied none h v denied =
      denied_by (judge env req env.rate_limit_max v.api_limits v.store.now).0
        (judge env req env.rate_limit_max v.api_limits v.store.now).0.status h
        (w.random_uuid v.store.draws)
        (record v {
          store = record v.store { draws = v.store.draws + 1 };
          api_limits = (judge env req env.rate_limit_max v.api_limits v.store.now).1;
        })
        (judge_status env req env.rate_limit_max v.api_limits v.store.now) denied

  pub run-IsDenied :
      {A : Type 0} (h : Action (Reply A)) (v : Server)
      → Denies h (received req v.store)
      → IsDenied (run w env m req h v) v
  unfolding run enter with_request_id
  run-IsDenied h v denied = enter_denied (non_empty (lookup "x-request-id" req.headers)) h v denied

  same_by :
      {A : Type 0} (verdict : Verdict) (o : Option ℕ) (h k : Action (Reply A)) (id : String)
      (v : Server)
      → h v.store ≡ k v.store
      → ◌≡◌ {A = HttpResponse A × Server}
          (by_verdict verdict o "Too many requests. Please try again later."
            (answered w env m h)
            id
            v)
          (by_verdict verdict o "Too many requests. Please try again later."
            (answered w env m k)
            id
            v)
  unfolding answered
  same_by verdict none h k id v same = rw same
  same_by verdict (some status) h k id v same = refl

  enter_same :
      {A : Type 0} (o : Option String) (h k : Action (Reply A)) (v : Server)
      → h (received_with o v.store) ≡ k (received_with o v.store)
      → ◌≡◌ {A = HttpResponse A × Server}
          (with_id w o
            (λ id s. behind_api env req (answered w env m h) id (record v { store = s }))
            v.store)
          (with_id w o
            (λ id s. behind_api env req (answered w env m k) id (record v { store = s }))
            v.store)
  unfolding behind_api
  enter_same (some id) h k v same =
      same_by (judge env req env.rate_limit_max v.api_limits v.store.now).0
        (judge env req env.rate_limit_max v.api_limits v.store.now).0.status h k id
        (record v { api_limits = (judge env req env.rate_limit_max v.api_limits v.store.now).1 })
        same
  enter_same none h k v same =
      same_by (judge env req env.rate_limit_max v.api_limits v.store.now).0
        (judge env req env.rate_limit_max v.api_limits v.store.now).0.status h k
        (w.random_uuid v.store.draws)
        (record v {
          store = record v.store { draws = v.store.draws + 1 };
          api_limits = (judge env req env.rate_limit_max v.api_limits v.store.now).1;
        })
        same

  -- Two handlers that agree on the store they get.
  pub run_same :
      {A : Type 0} (h k : Action (Reply A)) (v : Server)
      → h (received req v.store) ≡ k (received req v.store)
      → ◌≡◌ {A = HttpResponse A × Server} (run w env m req h v) (run w env m req k v)
  unfolding run enter with_request_id
  run_same h k v same = enter_same (non_empty (lookup "x-request-id" req.headers)) h k v same
