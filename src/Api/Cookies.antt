-- ===== src/Api/Cookies.antt =====
-- apps/api/src/utils/cookies.ts: the cookies that a response sets. `deleteCookie` of hono is a
-- cookie with an empty value and no time to live.
use secure_auth_x_pro.Prelude.{ℕ, ◌*◌, ◌/◌, Bool, true, false, List, [], ◌∷◌, String}
use secure_auth_x_pro.Http.{
  access_token_cookie, refresh_token_cookie, mfa_challenge_cookie, trusted_device_cookie,
}
use secure_auth_x_pro.Auth.Responses.{AuthTokens}
use secure_auth_x_pro.Api.Environment.{ApiEnv, SameSite}
use secure_auth_x_pro.Api.Guards.{csrf_cookie}

pub record CookieOptions : Type 0 where
  pub path : String
  pub domain : String
  pub secure : Bool
  pub same_site : SameSite
  pub http_only : Bool
  pub max_age : ℕ

pub record SetCookie : Type 0 where
  pub name : String
  pub value : String
  pub options : CookieOptions

module _ (env : ApiEnv) where
  unfoldable pub cookie_options : ℕ → Bool → CookieOptions
  cookie_options max_age_ms http_only = record {
    path = "/";
    domain = env.cookie_domain;
    secure = env.cookie_secure;
    same_site = env.cookie_same_site;
    http_only = http_only;
    max_age = max_age_ms / 1000;
  }

  abbrev set_cookie : String → String → ℕ → Bool → SetCookie
  set_cookie name value max_age_ms http_only = record {
    name = name;
    value = value;
    options = cookie_options max_age_ms http_only;
  }

  abbrev delete_cookie : String → Bool → SetCookie
  delete_cookie name http_only = set_cookie name "" 0 http_only

  -- setAuthCookies
  unfoldable pub auth_cookies : AuthTokens → ℕ → ℕ → List SetCookie
  auth_cookies tokens access_max_age_seconds refresh_max_age_seconds =
      set_cookie access_token_cookie tokens.access_token (access_max_age_seconds * 1000) true
      ∷ set_cookie refresh_token_cookie tokens.refresh_token (refresh_max_age_seconds * 1000) true
      ∷ set_cookie csrf_cookie tokens.csrf_token (refresh_max_age_seconds * 1000) false
      ∷ []

  -- clearAuthCookies
  unfoldable pub cleared_auth_cookies : List SetCookie
  cleared_auth_cookies =
      delete_cookie access_token_cookie true
      ∷ delete_cookie refresh_token_cookie true
      ∷ delete_cookie csrf_cookie false
      ∷ delete_cookie mfa_challenge_cookie true
      ∷ []

  unfoldable pub set_mfa_challenge_cookie : String → ℕ → SetCookie
  set_mfa_challenge_cookie challenge_id ttl_seconds =
      set_cookie mfa_challenge_cookie challenge_id (ttl_seconds * 1000) true

  unfoldable pub clear_mfa_challenge_cookie : SetCookie
  clear_mfa_challenge_cookie = delete_cookie mfa_challenge_cookie true

  unfoldable pub set_trusted_device_cookie : String → ℕ → SetCookie
  set_trusted_device_cookie token ttl_seconds =
      set_cookie trusted_device_cookie token (ttl_seconds * 1000) true
