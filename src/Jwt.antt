-- ===== src/Jwt.antt =====
-- packages/security/src/jwt.ts and packages/auth/src/password.service.ts, over jose and bcryptjs.
use secure_auth_x_pro.Prelude.{
  ℕ, ◌+◌, ◌*◌, ◌/◌, Bool, false, ◌||◌, Option, none, some, String, is_empty, get_or, if◌then◌else◌,
}
use secure_auth_x_pro.Schema.{JwtPayload, UserRole}
use secure_auth_x_pro.World.{World}

-- AccessTokenClaims
pub record AccessTokenClaims : Type 0 where
  pub user_id : String
  pub email : String
  pub role : UserRole
  pub session_id : String

module _ (w : World) where
  -- Date.now() in whole seconds, and the seconds of a time `ttl` seconds ahead.
  abbrev seconds : ℕ → ℕ
  seconds now = now / 1000

  unfoldable pub create_access_token : AccessTokenClaims → ℕ → String
  create_access_token claims now = w.jwt_sign w.jwt_access_secret (record {
    sub = claims.user_id;
    email = some claims.email;
    role = some claims.role;
    session_id = some claims.session_id;
    jti = none;
    nonce = none;
    type = "access";
    iat = seconds now;
    exp = seconds (now + w.jwt_access_ttl * 1000);
    iss = w.jwt_issuer;
    aud = w.jwt_audience;
  })

  -- `nonce` is a fresh random value.
  unfoldable pub create_refresh_token : String → String → Option ℕ → String → ℕ → String
  create_refresh_token user_id jti expires_in nonce now = w.jwt_sign w.jwt_refresh_secret (record {
    sub = user_id;
    email = none;
    role = none;
    session_id = none;
    jti = some jti;
    nonce = some nonce;
    type = "refresh";
    iat = seconds now;
    exp = seconds (now + get_or expires_in w.jwt_refresh_ttl * 1000);
    iss = w.jwt_issuer;
    aud = w.jwt_audience;
  })

  -- Any exception of `jwtVerify` is null.
  unfoldable pub verify_access_token : String → ℕ → Option JwtPayload
  verify_access_token token now =
      w.jwt_verify w.jwt_access_secret now w.jwt_issuer w.jwt_audience token

  unfoldable pub verify_refresh_token : String → ℕ → Option JwtPayload
  verify_refresh_token token now =
      w.jwt_verify w.jwt_refresh_secret now w.jwt_issuer w.jwt_audience token

  -- PasswordService.hash and PasswordService.verify: false, never an exception, on any mismatch
  unfoldable pub hash_password : String → ℕ → String
  hash_password plaintext draws = w.bcrypt_hash plaintext draws

  unfoldable pub verify_password : String → String → Bool
  verify_password plaintext hash =
      if is_empty plaintext || is_empty hash
      then false
      else get_or (w.bcrypt_compare plaintext hash) false
