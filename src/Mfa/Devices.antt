-- ===== src/Mfa/Devices.antt =====
-- mfa.service.ts: trusted devices, and the challenge cookie.
pub mod Trust
use secure_auth_x_pro.Prelude.{
  Bool, true, false, [], ◌∷◌, Option, none, some, String, lookup, is_empty, if◌then◌else◌,
}
use secure_auth_x_pro.Schema.{info, text, TrustedDevice}
use secure_auth_x_pro.Prisma.{Prisma}
use secure_auth_x_pro.World.{World}
use secure_auth_x_pro.Http.{
  RequestContext, get_client_ip, get_user_agent, safe_equal, mfa_challenge_cookie,
  trusted_device_cookie,
}
use secure_auth_x_pro.Exec.{Action, pure, draw, ◌>>=◌, ◌>>◌}
use secure_auth_x_pro.Repositories.Audits
use secure_auth_x_pro.Repositories.Mfa

module _ (db : Prisma) (w : World) where
  -- trustDevice: the cookie value; only its hash is stored. The row's id is a fresh UUID.
  unfoldable pub trust_device : String → RequestContext → Action String
  trust_device user_id req = do
    token ← draw w.random_base64url
    row_id ← draw w.random_uuid
    let ip = get_client_ip req
    Mfa.trust_device db (record {
      id = row_id;
      user_id = user_id;
      device_name = w.describe_device (get_user_agent req);
      device_fingerprint = w.sha256 token;
      platform = none;
      browser = none;
      ip_address = some ip;
      trusted_at = 0;
      last_used_at = 0;
    })
    Audits.log db (some user_id) "device.trusted" info req (("ip", text ip) ∷ [])
    pure token

  -- `rememberDevice ? await this.trustDevice(userId, req) : null`
  unfoldable pub trust_if : Bool → String → RequestContext → Action (Option String)
  unfolding trust_device
  trust_if true user_id req = do token ← trust_device user_id req; pure (some token)
  trust_if false user_id req = pure none

  unfoldable pub known_device : String → Option TrustedDevice → Action Bool
  known_device user_id none = pure false
  known_device user_id (some device) = do
    Mfa.touch_trusted_device db user_id device.device_fingerprint
    pure true

  unfoldable pub cookie_trusted : String → Option String → Action Bool
  unfolding known_device
  cookie_trusted user_id none = pure false
  cookie_trusted user_id (some token) = if is_empty token then pure false else (do
    found ← Mfa.get_trusted_device db user_id (w.sha256 token)
    known_device user_id found)

  unfoldable pub is_device_trusted : String → RequestContext → Action Bool
  unfolding cookie_trusted
  is_device_trusted user_id req = cookie_trusted user_id (lookup trusted_device_cookie req.cookies)

abbrev cookie_matches : Option String → String → Bool
cookie_matches none id = false
cookie_matches (some cookie) id = safe_equal cookie id

unfoldable pub challenge_cookie_matches : RequestContext → String → Bool
unfolding safe_equal
challenge_cookie_matches req challenge_id =
    cookie_matches (lookup mfa_challenge_cookie req.cookies) challenge_id
