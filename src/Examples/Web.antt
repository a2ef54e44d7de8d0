-- ===== src/Examples/Web.antt =====
-- A browser whose access token has run out; its state tells whether the token is good.
use secure_auth_x_pro.Prelude.{
  ◌≡◌, refl, Bool, true, false, Option, some, [], ◌++◌, String, ◌==◌, if◌then◌else◌,
}
use secure_auth_x_pro.Text.{trim, strip_prefix}
use secure_auth_x_pro.Text.Split.{split}
use secure_auth_x_pro.Text.Percent.{decode_uri_component}
use secure_auth_x_pro.Web.Client.{
  ParsedBody, Response, Method, RequestOptions, Attempt, Browser, get_csrf_token, api_fetch,
}
use secure_auth_x_pro.Web.Client.Attempts.{api_fetch-sent, reference, sent}

abbrev answer : Bool → Option Response
answer good =
    some record { status = if good then 200 else 401; status_text = ""; body = ParsedBody.null }

abbrev fetch : Attempt → Bool → Option Response × Bool
fetch a good =
    let now = if a.path == "/api/v1/auth/refresh" then true else good in (answer now, now)

abbrev cookie : Bool → String
cookie good = "theme=dark; sax_csrf=ab%2Fcd"

abbrev options : RequestOptions
options = record { method = Method.post; body = some "{}"; headers = []; retry = false }

abbrev browser : Browser Bool
browser = record { state = false; attempts = [] }

csrf_found : get_csrf_token (cookie false) ≡ some "ab/cd"
unfolding get_csrf_token split strip_prefix trim decode_uri_component
csrf_found = refl

api_fetch-sent_example :
    (api_fetch fetch cookie 2 "/api/v1/mfa/disable" options browser
      ≡ some (reference fetch cookie "/api/v1/mfa/disable" options browser))
    × ((reference fetch cookie "/api/v1/mfa/disable" options browser).1.attempts
        ≡ [] ++ sent fetch cookie "/api/v1/mfa/disable" options browser)
api_fetch-sent_example = api_fetch-sent fetch cookie "/api/v1/mfa/disable" options browser 0
