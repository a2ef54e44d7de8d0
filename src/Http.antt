-- ===== src/Http.antt =====
-- Reading a request: packages/shared/src/http.ts, safeEqual of packages/shared/src/crypto.ts and
-- resolveAccessToken of apps/api/src/middlewares/authenticate.ts.

use secure_auth_x_pro.Prelude.{
  Bool, Option, none, some, List, String, ◌==◌, is_empty, lookup, if◌then◌else◌,
}
use secure_auth_x_pro.Text.{trim, before_comma, strip_prefix}

-- A header is a text or a list of texts; an absent one is not in the list.
pub data HeaderValue : Type 0 where
  single : String → HeaderValue
  many : List String → HeaderValue

-- HttpRequestContext
pub record RequestContext : Type 0 where
  pub headers : List (String × HeaderValue)
  pub cookies : List (String × String)
  pub remote_address : Option String

-- `typeof value === 'string'`
abbrev pub as_text : Option HeaderValue → Option String
as_text (some (single v)) = some v
as_text _ = none

-- `typeof value === 'string' && value.length > 0`
abbrev pub non_empty : Option String → Option String
non_empty none = none
non_empty (some v) = if is_empty v then none else some v

abbrev pub or_else {ℓ} : {A : Type ℓ} → Option A → Option A → Option A
or_else (some a) o = some a
or_else none o = o

abbrev header : RequestContext → String → Option String
header req name = as_text (lookup name req.headers)

-- The first part of `x-forwarded-for`, trimmed, where it is not empty.
abbrev forwarded_ip : Option String → Option String
forwarded_ip none = none
forwarded_ip (some v) = if is_empty v then none else non_empty (some (trim (before_comma v)))

-- getClientIp
unfoldable pub get_client_ip : RequestContext → String
get_client_ip req =
    elim (or_else (forwarded_ip (header req "x-forwarded-for")) (
      or_else (non_empty (header req "x-real-ip"))
        (or_else (non_empty (header req "cf-connecting-ip")) (non_empty req.remote_address)))) [
          | some ip ↦ ip
          | none ↦ "unknown"
        ]

-- getUserAgent
unfoldable pub get_user_agent : RequestContext → String
get_user_agent req = elim (header req "user-agent") [ some ua ↦ ua | none ↦ "" ]

-- safeEqual: the constant-time comparison of the bytes of two texts answers as equality does.
unfoldable pub safe_equal : String → String → Bool
safe_equal known supplied = known == supplied

-- COOKIE_NAMES
abbrev pub access_token_cookie : String
access_token_cookie = "sax_access_token"

abbrev pub refresh_token_cookie : String
refresh_token_cookie = "sax_refresh_token"

abbrev pub mfa_challenge_cookie : String
mfa_challenge_cookie = "sax_mfa_challenge"

abbrev pub trusted_device_cookie : String
trusted_device_cookie = "sax_trusted_device"

abbrev bearer_token : Option String → Option String
bearer_token none = none
bearer_token (some h) = elim (strip_prefix "Bearer " h) [
  | none ↦ none
  | some rest ↦ non_empty (some (trim rest))
]

-- resolveAccessToken
unfoldable pub resolve_access_token : RequestContext → Option String
resolve_access_token req =
    or_else (bearer_token (header req "authorization"))
      (non_empty (lookup access_token_cookie req.cookies))
