-- ===== src/Web/Client.antt =====
-- apps/web/lib/api/client.ts. `fetch` of the platform is a parameter: what it does with one attempt,
-- in a state of browser and server, where a rejected promise is null. A response comes with its body
-- parsed (JSON is the language's).
pub mod Attempts
use Prim.Native.String
use secure_auth_x_pro.Prelude.{
  ℕ, zero, suc, Bool, true, false, not, ◌&&◌, ◌||◌, Option, none, some, List, [], ◌∷◌, ◌++◌, map,
  String, ◌==◌, is_some, get_or, set_key, leb, if◌then◌else◌,
}
use secure_auth_x_pro.Text.{trim, strip_prefix, same_number}
use secure_auth_x_pro.Text.Split.{split}
use secure_auth_x_pro.Text.Percent.{decode_uri_component}

-- ApiError
pub record ApiError : Type 0 where
  pub status : ℕ
  pub code : String
  pub message : String
  pub details : Option String

-- What a call throws: an ApiError, or what `fetch` rejects with.
pub data Thrown : Type 0 where
  api_error : ApiError → Thrown
  fetch_failed : Thrown

-- The fields of a parsed body that are read, where it is an object; `null` for an empty body, and any
-- other text or value.
pub data ParsedBody : Type 0 where
  null : ParsedBody
  object : Option String → Option String → Option String → Option String → ParsedBody
  other : String → ParsedBody

pub record Response : Type 0 where
  pub status : ℕ
  pub status_text : String
  pub body : ParsedBody

-- `res.ok`
abbrev is_ok : ℕ → Bool
is_ok status = leb 200 status && leb status 299

-- What a call resolves to: the `data` of an envelope, or the body itself.
pub data Answer : Type 0 where
  payload : String → Answer
  whole : ParsedBody → Answer

pub data Outcome : Type 0 where
  resolved : Answer → Outcome
  rejected : Thrown → Outcome

abbrev error_of : Response → ParsedBody → ApiError
error_of res (object code message details content) = record {
  status = res.status;
  code = get_or code "REQUEST_FAILED";
  message = get_or message res.status_text;
  details = details;
}
error_of res body = record {
  status = res.status;
  code = "REQUEST_FAILED";
  message = res.status_text;
  details = none;
}

abbrev answer_of : ParsedBody → Answer
answer_of (object code message details (some content)) = payload content
answer_of body = whole body

-- readEnvelope
unfoldable pub read_envelope : Response → Outcome
read_envelope res =
    if is_ok res.status
    then resolved (answer_of res.body)
    else rejected (api_error (error_of res res.body))

pub data Method : Type 0 where
  get post put patch delete : Method

-- RequestOptions, with the defaults of `method` and `_retry` filled in
pub record RequestOptions : Type 0 where
  pub method : Method
  pub body : Option String
  pub headers : List (String × String)
  pub retry : Bool

pub record Attempt : Type 0 where
  pub path : String
  pub method : Method
  pub headers : List (String × String)
  pub body : Option String

-- The first part that starts with `sax_csrf=`.
first_csrf : List String → Option String
first_csrf [] = none
first_csrf (part ∷ parts) = elim (strip_prefix "sax_csrf=" part) [
  | none ↦ first_csrf parts
  | some value ↦ some value
]

abbrev decoded : Option String → Option String
decoded none = none
decoded (some value) = decode_uri_component value

-- getCsrfToken, from `document.cookie`
unfoldable pub get_csrf_token : String → Option String
unfolding first_csrf
get_csrf_token cookie = decoded (first_csrf (map trim (split b';' cookie)))

abbrev is_get : Method → Bool
is_get get = true
is_get _ = false

-- shouldSkipRefresh
unfoldable pub should_skip_refresh : String → Method → Bool
should_skip_refresh path method =
    (path == "/api/v1/auth/refresh")
    || (path == "/api/v1/auth/login")
    || (path == "/api/v1/auth/logout")
    || is_get method

abbrev with_json : Option String → List (String × String) → List (String × String)
with_json none headers = headers
with_json (some body) headers = set_key "content-type" "application/json" headers

abbrev with_csrf : Option String → List (String × String) → List (String × String)
with_csrf none headers = headers
with_csrf (some token) headers =
    if token == "" then headers else set_key "x-csrf-token" token headers

-- buildHeaders; the methods other than GET are those that change state.
unfoldable pub build_headers : RequestOptions → Option String → List (String × String)
build_headers options csrf =
    let headers = with_json options.body options.headers in
    if is_get options.method then headers else with_csrf csrf headers

-- The browser with the server behind it, and the attempts made so far.
pub record Browser (B : Type 0) : Type 0 where
  pub state : B
  pub attempts : List Attempt

abbrev pub refresh_path : String
refresh_path = "/api/v1/auth/refresh"

abbrev pub refresh_options : RequestOptions
refresh_options = record { method = post; body = some "{}"; headers = []; retry = true }

module _ {B : Type 0} (fetch : Attempt → B → Option Response × B) (cookie : B → String) where
  abbrev pub attempt_of : String → RequestOptions → B → Attempt
  attempt_of path options b = record {
    path = path;
    method = options.method;
    headers = build_headers options (get_csrf_token (cookie b));
    body = options.body;
  }

  -- `execute`
  unfoldable pub execute : String → RequestOptions → Browser B → Option Response × Browser B
  execute path options b =
      let a = attempt_of path options b.state in
      let (res, state) = fetch a b.state in
      (res, record { state = state; attempts = b.attempts ++ a ∷ [] })

  abbrev concluded : Option Response → Outcome
  concluded none = rejected fetch_failed
  concluded (some res) = read_envelope res

  -- A first response that sends the client to refresh its tokens.
  abbrev pub wants_refresh : String → RequestOptions → Option Response → Bool
  wants_refresh path options none = false
  wants_refresh path options (some res) =
      same_number res.status 401
      && not options.retry
      && not (should_skip_refresh path options.method)

  -- refreshSession: whether the call resolved.
  abbrev pub refreshed : Outcome → Bool
  refreshed (resolved a) = true
  refreshed (rejected e) = false

  -- What follows the first response: `recur` is the call of apiFetch that refreshSession makes.
  unfoldable pub after_first :
      String
      → RequestOptions
      → Option (Outcome × Browser B)
      → Option Response × Browser B
      → Option (Outcome × Browser B)
  after_first path options none (res, b) =
      if wants_refresh path options res then none else some (concluded res, b)
  after_first path options (some (outcome, c)) (res, b) =
      if wants_refresh path options res
      then (if refreshed outcome
          then (let (again, d) = execute path options c in some (concluded again, d))
          else some (concluded res, c))
      else some (concluded res, b)

  -- apiFetch, null if the calls nest deeper than the fuel.
  unfoldable pub api_fetch : ℕ → String → RequestOptions → Browser B → Option (Outcome × Browser B)
  api_fetch zero path options b = none
  api_fetch (suc fuel) path options b =
      let first = execute path options b in
      after_first path options (api_fetch fuel refresh_path refresh_options first.1) first
