-- ===== src/Examples/Api.antt =====
-- Requests to the application of the example installation.
use secure_auth_x_pro.Prelude.{
  ◌≡◌, refl, sym, true, false, some, none, ◌∷◌, [], String, arith, lookup, List,
}
use secure_auth_x_pro.Text.{every, same_number, is_space}
use secure_auth_x_pro.Prisma.{reference, reference-IsPrisma}
use secure_auth_x_pro.Prisma.Table.{find_first, update}
use secure_auth_x_pro.Schema.{Store, User, UserRole, UserStatus, JwtPayload}
use secure_auth_x_pro.World.{World}
use secure_auth_x_pro.Exec.{
  Failure, record_missing, library_error, Action, throw, ◌>>=◌, ◌>>◌, pure,
}
use secure_auth_x_pro.Exec.Inversion.{Returns}
use secure_auth_x_pro.Mfa.Enrollment.{Registration}
use secure_auth_x_pro.Repositories.Users
use secure_auth_x_pro.Auth.Tokens.{Device, issue_tokens, refresh_ttl}
use secure_auth_x_pro.Auth.Responses.{AuthTokens}
use secure_auth_x_pro.Auth.Tokens.Issue
use secure_auth_x_pro.Auth.Renewal.{IsJose}
use secure_auth_x_pro.Jwt.{create_refresh_token}
use secure_auth_x_pro.Api.Environment.{ApiEnv, SameSite}
use secure_auth_x_pro.Api.Requests.{HttpRequest, to_request_context}
use secure_auth_x_pro.Api.Requests.RoundTrip.{cookie_header, to_request_context-cookie_header}
use secure_auth_x_pro.Api.Cookies.{auth_cookies}
use secure_auth_x_pro.Api.Replies.{Reply, reply, validate}
use secure_auth_x_pro.Api.Pipeline.{Server, run}
use secure_auth_x_pro.Api.Pipeline.Failures.{missing, library, run-hides}
use secure_auth_x_pro.Api.Controllers.Mfa
use secure_auth_x_pro.Api.Controllers.Admin
use secure_auth_x_pro.Api.Controllers.Security
use secure_auth_x_pro.Api.Routes.{
  get_users, get_audit_logs, get_security_events, patch_user_role, patch_user_status,
  get_mfa_status, post_start_totp, post_verify_totp_enrollment, post_start_webauthn,
  post_verify_webauthn_enrollment, post_remove_webauthn, post_regenerate_recovery_codes,
  post_disable_mfa,
}
use secure_auth_x_pro.Api.Routes.Protection.{
  AsAdmin, AsUser, admin_routes-AsAdmin, own_routes-AsUser,
}
use secure_auth_x_pro.Api.Renewal.Chain.{WritesPlainTokens, Renews, issue_tokens-post_refresh}
use secure_auth_x_pro.Examples.{world, alice, store, refresh_payload}

abbrev pub api_env : ApiEnv
api_env = record {
  production = true;
  cookie_domain = "localhost";
  cookie_secure = true;
  cookie_same_site = SameSite.lax;
  trusted_device_ttl_days = 30;
  rate_limit_window_ms = 60000;
  rate_limit_max = 100;
  auth_rate_limit_max = 10;
}

abbrev message_of : Failure → String
message_of e = "connection refused"

abbrev jar : List (String × String)
jar = ("sax_csrf", "0123456789abcdef") ∷ ("sax_refresh_token", "header.claims.signature") ∷ []

abbrev with_jar : HttpRequest
with_jar = record {
  method = "POST";
  path = "/api/v1/auth/refresh";
  headers = ("cookie", cookie_header jar) ∷ [];
}

to_request_context-cookie_header_example : (to_request_context with_jar).cookies ≡ jar
unfolding every same_number is_space lookup
to_request_context-cookie_header_example =
    to_request_context-cookie_header with_jar jar
      (
        record {
          name = record { dense = refl; no_semicolon = refl; no_percent = refl };
          value = record { dense = refl; no_semicolon = refl; no_percent = refl };
          named = refl;
          no_equals = refl;
          own = refl;
        },
        (
          record {
            name = record { dense = refl; no_semicolon = refl; no_percent = refl };
            value = record { dense = refl; no_semicolon = refl; no_percent = refl };
            named = refl;
            no_equals = refl;
            own = refl;
          },
          tt,
        ),
      )
      ((refl, tt), (tt, tt)) refl

abbrev root : User
root = record alice { role = UserRole.admin }

abbrev server : Server
server = record {
  store = record store { users = root ∷ [] };
  api_limits = [];
  auth_limits = [];
  mfa_limits = [];
}

-- An update of a user whose row is gone, and an exception of a library.
abbrev promotes_nobody : Action (Reply User)
promotes_nobody = Users.set_role reference "u9" UserRole.admin >>= λ u. pure (reply "OK" "" u [])

abbrev library_throws : Action (Reply User)
library_throws = throw library_error

run-hides_example :
    (run world api_env message_of with_jar promotes_nobody server).0
    ≡ (run world api_env (λ e. "syntax error") with_jar library_throws server).0
unfolding Users.set_role update find_first lookup
run-hides_example =
    run-hides api_env refl message_of (λ e. "syntax error") world with_jar promotes_nobody
      library_throws server {e = record_missing} {e' = library_error} refl refl missing library

abbrev with_token : HttpRequest
with_token = record {
  method = "PATCH";
  path = "/api/v1/admin/users/u1/status";
  headers = ("authorization", "Bearer issued") ∷ [];
}

abbrev users_query : Admin.RawUsersQuery
users_query = record { page = some "2"; page_size = none; search = none; status = none }

abbrev logs_query : Security.RawQuery
logs_query = record { page = none; page_size = some "50"; severity = none; kind = some "auth." }

admin_routes-AsAdmin_example :
    AsAdmin reference-IsPrisma world api_env message_of with_token
      (get_users reference world api_env message_of with_token [] users_query server)
      (λ actor c. validate [] >> Admin.list_users reference users_query)
      server
    × AsAdmin reference-IsPrisma world api_env message_of with_token
        (patch_user_role reference world api_env message_of with_token [] "u1" UserRole.user server)
        (λ actor c. validate [] >> Admin.set_user_role reference actor "u1" UserRole.user c)
        server
    × AsAdmin reference-IsPrisma world api_env message_of with_token
        (patch_user_status reference world api_env message_of with_token [] "u1" UserStatus.locked
          server)
        (λ actor c. validate [] >> Admin.set_user_status reference actor "u1" UserStatus.locked c)
        server
admin_routes-AsAdmin_example =
    admin_routes-AsAdmin reference-IsPrisma world api_env message_of with_token [] users_query "u1"
      UserRole.user UserStatus.locked server

abbrev a_key : Registration
a_key = record { response = "attestation"; transports = "usb" ∷ [] }

own_routes-AsUser_example :
    AsUser reference-IsPrisma world api_env message_of with_token
      (get_mfa_status reference world api_env message_of with_token server)
      (λ id c. Mfa.status reference world api_env id)
      server
    × AsUser reference-IsPrisma world api_env message_of with_token
        (post_start_totp reference world api_env message_of with_token server)
        (λ id c. Mfa.start_totp reference world api_env id)
        server
    × AsUser reference-IsPrisma world api_env message_of with_token
        (post_verify_totp_enrollment reference world api_env message_of with_token [] "123456"
          server)
        (λ id c. validate [] >> Mfa.verify_totp_enrollment reference world api_env id "123456" c)
        server
    × AsUser reference-IsPrisma world api_env message_of with_token
        (post_start_webauthn reference world api_env message_of with_token [] server)
        (λ id c. validate [] >> Mfa.start_webauthn reference world api_env id)
        server
    × AsUser reference-IsPrisma world api_env message_of with_token
        (post_verify_webauthn_enrollment reference world api_env message_of with_token [] "123456"
          none a_key server)
        (λ id c.
          validate []
          >> Mfa.verify_webauthn_enrollment reference world api_env id "123456" none a_key c)
        server
    × AsUser reference-IsPrisma world api_env message_of with_token
        (post_remove_webauthn reference world api_env message_of with_token [] "123456" server)
        (λ id c. validate [] >> Mfa.remove_webauthn reference world api_env id "123456" c)
        server
    × AsUser reference-IsPrisma world api_env message_of with_token
        (post_regenerate_recovery_codes reference world api_env message_of with_token [] "123456"
          server)
        (λ id c. validate [] >> Mfa.regenerate_recovery_codes reference world api_env id "123456" c)
        server
    × AsUser reference-IsPrisma world api_env message_of with_token
        (post_disable_mfa reference world api_env message_of with_token [] "123456" server)
        (λ id c. validate [] >> Mfa.disable reference world api_env id "123456" c)
        server
    × AsUser reference-IsPrisma world api_env message_of with_token
        (get_audit_logs reference world api_env message_of with_token [] logs_query server)
        (λ id c. validate [] >> Security.list_audit_logs reference id logs_query)
        server
    × AsUser reference-IsPrisma world api_env message_of with_token
        (get_security_events reference world api_env message_of with_token [] logs_query server)
        (λ id c. validate [] >> Security.list_security_events reference id logs_query)
        server
own_routes-AsUser_example =
    own_routes-AsUser reference-IsPrisma world api_env message_of with_token [] "123456" logs_query
      none a_key server

-- Every token that verifies names the session that was drawn.
abbrev drawn_payload : JwtPayload
drawn_payload = record refresh_payload { jti = some "uuid" }

abbrev signing_world : World
signing_world = record world { jwt_verify = λ k now iss aud token. some drawn_payload }

signing-IsJose : IsJose signing_world
signing-IsJose = record { verifies = λ key p n now named h. (drawn_payload, refl, sym named) }

signing-WritesPlainTokens : WritesPlainTokens signing_world
unfolding every same_number is_space
signing-WritesPlainTokens = record {
  token_plain = λ key p. record { dense = refl; no_semicolon = refl; no_percent = refl };
  token_filled = λ key p. refl;
  hex_plain = λ n. record { dense = refl; no_semicolon = refl; no_percent = refl };
  hex_filled = λ n. refl;
}

abbrev laptop : Device
laptop = record { ip = "203.0.113.7"; user_agent = "" }

abbrev issued_store : Store
issued_store = Issue.with_session signing_world alice laptop false store

abbrev issued : AuthTokens
issued = Issue.tokens_of signing_world alice laptop false store

issued-Returns :
    Returns (issue_tokens reference signing_world alice laptop false) store issued issued_store
unfolding create_refresh_token
issued-Returns =
    Issue.issue_tokens_runs signing_world alice laptop false reference-IsPrisma store refl

-- Ten and twenty seconds after the start.
issue_tokens-post_refresh_example :
    Renews reference signing_world api_env message_of
      (record server { store = issued_store })
      (auth_cookies api_env issued signing_world.jwt_access_ttl issued.expires_in)
      issued.csrf_token
      (10000 ∷ 20000 ∷ [])
unfolding refresh_ttl find_first
issue_tokens-post_refresh_example =
    issue_tokens-post_refresh reference-IsPrisma signing_world signing-IsJose
      signing-WritesPlainTokens api_env message_of alice laptop false store server 0
      (10000 ∷ 20000 ∷ []) tt (omega arith) (tt, tt) refl refl issued-Returns (omega arith)
