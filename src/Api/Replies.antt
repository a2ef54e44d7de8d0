-- ===== src/Api/Replies.antt =====
-- What the application answers: apps/api/src/utils/response.ts, and the middlewares
-- request-id.ts, error-handler.ts, not-found.ts and validate.ts.
use secure_auth_x_pro.Prelude.{
  ℕ, ◌+◌, Option, none, some, List, [], ◌∷◌, String, lookup, if◌then◌else◌,
}
use secure_auth_x_pro.Schema.{Store}
use secure_auth_x_pro.World.{World}
use secure_auth_x_pro.Text.{concat}
use secure_auth_x_pro.RateLimit.{Verdict}
use secure_auth_x_pro.Http.{non_empty}
use secure_auth_x_pro.Exec.{
  Failure, FieldIssue, app, invalid, record_missing, unique_violation, library_error, not_found,
  Action, Result, ok, err, pure, throw,
}
use secure_auth_x_pro.Api.Environment.{ApiEnv}
use secure_auth_x_pro.Api.Cookies.{SetCookie}
use secure_auth_x_pro.Api.Requests.{HttpRequest}

-- What a controller hands to `ok`: the arguments, and the cookies that were set before.
pub record Reply (A : Type 0) : Type 0 where
  pub code : String
  pub message : String
  pub content : A
  pub status : ℕ
  pub cookies : List SetCookie

abbrev pub reply : {A : Type 0} → String → String → A → List SetCookie → Reply A
reply code message content cookies = record {
  code = code;
  message = message;
  content = content;
  status = 200;
  cookies = cookies;
}

-- `details` of an error: what AppError was given.
pub data Details : Type 0 where
  retry_after_seconds : ℕ → Details
  fields : List FieldIssue → Details

-- The answer of a rate limiter has no request id.
pub record ErrorBody : Type 0 where
  pub code : String
  pub message : String
  pub details : Option Details
  pub request_id : Option String
  pub timestamp : ℕ

-- The success envelope, or the error envelope.
pub data Body (A : Type 0) : Type 0 where
  success : String → String → A → String → ℕ → Body A
  error : ErrorBody → Body A

-- `request_id` is the header `x-request-id`, and `rate_limit` the headers of a rate limiter.
pub record HttpResponse (A : Type 0) : Type 0 where
  pub status : ℕ
  pub body : Body A
  pub cookies : List SetCookie
  pub request_id : String
  pub rate_limit : Option Verdict

-- The id of the request, given or fresh.
abbrev pub with_id : {B : Type 0} → World → Option String → (String → Store → B) → Store → B
with_id w (some id) next s = next id s
with_id w none next s = next (w.random_uuid s.draws) (record s { draws = s.draws + 1 })

-- requestIdMiddleware: the header, where it is not empty, or a fresh UUID.
unfoldable pub with_request_id :
    {B : Type 0} → World → HttpRequest → (String → Store → B) → Store → B
with_request_id w req next s = with_id w (non_empty (lookup "x-request-id" req.headers)) next s

-- validate, where the schemas' library reports these issues. An empty report lets the request pass.
unfoldable pub validate : List FieldIssue → Action (Unit {0})
validate [] = pure tt
validate (i ∷ is) = throw (invalid (i ∷ is))

-- `statusCode`, `code`, `message` and `details` of errorHandler.
pub record Described : Type 0 where
  pub status_code : ℕ
  pub code : String
  pub message : String
  pub details : Option Details

abbrev app_details : Option ℕ → Option Details
app_details none = none
app_details (some n) = some (retry_after_seconds n)

-- An `Error` of the client or of a library; its message is shown outside production only.
abbrev unexpected : ApiEnv → String → Described
unexpected env message = record {
  status_code = 500;
  code = "INTERNAL_ERROR";
  message = if env.production then "Internal server error." else message;
  details = none;
}

module _ (env : ApiEnv) (message_of : Failure → String) where
  unfoldable pub describe_failure : Failure → Described
  describe_failure (app e) = record {
    status_code = e.status_code;
    code = e.code;
    message = e.message;
    details = app_details e.retry_after_seconds;
  }
  describe_failure (invalid issues) = record {
    status_code = 422;
    code = "VALIDATION_ERROR";
    message = "Request validation failed.";
    details = some (fields issues);
  }
  describe_failure record_missing = unexpected env (message_of record_missing)
  describe_failure unique_violation = unexpected env (message_of unique_violation)
  describe_failure library_error = unexpected env (message_of library_error)

  -- errorHandler
  unfoldable pub error_handler : {A : Type 0} → Failure → String → ℕ → HttpResponse A
  unfolding describe_failure
  error_handler e request_id now =
      let d = describe_failure e in
      record {
        status = d.status_code;
        body = error (record {
          code = d.code;
          message = d.message;
          details = if env.production then none else d.details;
          request_id = some request_id;
          timestamp = now;
        });
        cookies = [];
        request_id = request_id;
        rate_limit = none;
      }

  abbrev pub finish : {A : Type 0} → Result (Reply A) → String → ℕ → HttpResponse A
  finish (ok r) request_id now = record {
    status = r.status;
    body = success r.code r.message r.content request_id now;
    cookies = r.cookies;
    request_id = request_id;
    rate_limit = none;
  }
  finish (err e) request_id now = error_handler e request_id now

-- notFoundHandler
unfoldable pub not_found_handler : {A : Type 0} → HttpRequest → String → ℕ → HttpResponse A
not_found_handler req request_id now =
    let e =
      not_found
        (concat "Route " (concat req.method (concat " " (concat req.path " not found.")))) in
    record {
      status = e.status_code;
      body = error (record {
        code = e.code;
        message = e.message;
        details = none;
        request_id = some request_id;
        timestamp = now;
      });
      cookies = [];
      request_id = request_id;
      rate_limit = none;
    }
