-- ===== src/Api/Pipeline/Failures.antt =====
-- error-handler.ts and app.ts: what a client learns of a failure in production.
use secure_auth_x_pro.Prelude.{ℕ, ◌+◌, ◌≡◌, refl, ap, true, none, some, Option, String, lookup}
use secure_auth_x_pro.Schema.{Store}
use secure_auth_x_pro.World.{World}
use secure_auth_x_pro.Http.{non_empty, or_else}
use secure_auth_x_pro.Exec.{Action, Failure, err, record_missing, unique_violation, library_error}
use secure_auth_x_pro.Api.Environment.{ApiEnv}
use secure_auth_x_pro.Api.Requests.{HttpRequest}
use secure_auth_x_pro.Api.Replies.{
  Reply, HttpResponse, error_handler, describe_failure, with_request_id, with_id,
}
use secure_auth_x_pro.RateLimit.{Verdict}
use secure_auth_x_pro.Api.Pipeline.{Server, by_verdict, judge, behind_api, answered, enter, run}

-- Neither an error of the application nor a refused field: an exception of the client or a library.
pub data IsUnexpected : Failure → Type 0 where
  missing : IsUnexpected record_missing
  clash : IsUnexpected unique_violation
  library : IsUnexpected library_error

-- The store that a handler gets, once the request has its id.
abbrev pub received_with : Option String → Store → Store
received_with (some id) s = s
received_with none s = record s { draws = s.draws + 1 }

abbrev pub received : HttpRequest → Store → Store
received req s = received_with (non_empty (lookup "x-request-id" req.headers)) s

module _ (env : ApiEnv) (prod : env.production ≡ true) where
  -- One response for all.
  unexpected_same :
      {A : Type 0} (m m' : Failure → String) {e e' : Failure}
      → IsUnexpected e
      → IsUnexpected e'
      → (id : String) (now : ℕ)
      → ◌≡◌ {A = HttpResponse A} (error_handler env m e id now) (error_handler env m' e' id now)
  unfolding error_handler describe_failure
  unexpected_same m m' missing missing id now = rw prod
  unexpected_same m m' missing clash id now = rw prod
  unexpected_same m m' missing library id now = rw prod
  unexpected_same m m' clash missing id now = rw prod
  unexpected_same m m' clash clash id now = rw prod
  unexpected_same m m' clash library id now = rw prod
  unexpected_same m m' library missing id now = rw prod
  unexpected_same m m' library clash id now = rw prod
  unexpected_same m m' library library id now = rw prod

  -- The two handlers behind the limiter.
  hides_by :
      {A : Type 0} (m m' : Failure → String) (w : World) (verdict : Verdict) (o : Option ℕ)
      (h h' : Action (Reply A)) (id : String) (v : Server) {e e' : Failure} {t t' : Store}
      → h v.store ≡ (err e, t)
      → h' v.store ≡ (err e', t')
      → IsUnexpected e
      → IsUnexpected e'
      → ◌≡◌ {A = HttpResponse A}
          (by_verdict verdict o "Too many requests. Please try again later."
            (answered w env m h)
            id
            v).0
          (by_verdict verdict o "Too many requests. Please try again later."
            (answered w env m' h')
            id
            v).0
  unfolding answered
  hides_by {A} m m' w verdict none h h' id v f f' u u' =
      rw (f, f')
        (ap (λ (r : HttpResponse A). record r { rate_limit = or_else r.rate_limit (some verdict) })
          (unexpected_same m m' u u' id v.store.now))
  hides_by m m' w verdict (some status) h h' id v f f' u u' = refl

  hides_with :
      {A : Type 0} (m m' : Failure → String) (w : World) (req : HttpRequest) (o : Option String)
      (h h' : Action (Reply A)) (v : Server) {e e' : Failure} {t t' : Store}
      → h (received_with o v.store) ≡ (err e, t)
      → h' (received_with o v.store) ≡ (err e', t')
      → IsUnexpected e
      → IsUnexpected e'
      → ◌≡◌ {A = HttpResponse A}
          (with_id {B = HttpResponse A × Server} w o
            (λ id s. behind_api env req (answered w env m h) id (record v { store = s }))
            v.store).0
          (with_id {B = HttpResponse A × Server} w o
            (λ id s. behind_api env req (answered w env m' h') id (record v { store = s }))
            v.store).0
  unfolding behind_api
  hides_with m m' w req (some id) h h' v f f' u u' =
      hides_by m m' w (judge env req env.rate_limit_max v.api_limits v.store.now).0
        (judge env req env.rate_limit_max v.api_limits v.store.now).0.status h h' id
        (record v { api_limits = (judge env req env.rate_limit_max v.api_limits v.store.now).1 }) f
        f' u u'
  hides_with m m' w req none h h' v f f' u u' =
      hides_by m m' w (judge env req env.rate_limit_max v.api_limits v.store.now).0
        (judge env req env.rate_limit_max v.api_limits v.store.now).0.status h h'
        (w.random_uuid v.store.draws)
        (record v {
          store = record v.store { draws = v.store.draws + 1 };
          api_limits = (judge env req env.rate_limit_max v.api_limits v.store.now).1;
        })
        f f' u u'

  -- In production a client cannot tell one unexpected failure from another: two handlers that fail
  -- on the same server, each by an exception of the database client or of a library, whatever the
  -- exceptions and their messages, get the same response.
  pub run-hides :
      {A : Type 0} (m m' : Failure → String) (w : World) (req : HttpRequest)
      (h h' : Action (Reply A)) (v : Server) {e e' : Failure} {t t' : Store}
      → h (received req v.store) ≡ (err e, t)
      → h' (received req v.store) ≡ (err e', t')
      → IsUnexpected e
      → IsUnexpected e'
      → (run w env m req h v).0 ≡ (run w env m' req h' v).0
  unfolding run enter with_request_id
  run-hides m m' w req h h' v f f' u u' =
      hides_with m m' w req (non_empty (lookup "x-request-id" req.headers)) h h' v f f' u u'
