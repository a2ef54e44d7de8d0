-- ===== src/Auth/Tokens.antt =====
-- auth.service.ts: issuing the tokens of a new session.
pub mod Issue
use secure_auth_x_pro.Prelude.{ℕ, ◌+◌, ◌*◌, Bool, some, String, if◌then◌else◌}
use secure_auth_x_pro.Schema.{User, SessionStatus}
use secure_auth_x_pro.Prisma.{Prisma}
use secure_auth_x_pro.World.{World}
use secure_auth_x_pro.Exec.{Action, pure, gets, draw, ◌>>=◌, ◌>>◌}
use secure_auth_x_pro.Repositories.Sessions
use secure_auth_x_pro.Jwt.{create_access_token, create_refresh_token}
use secure_auth_x_pro.Auth.Responses.{AuthTokens}

pub record Device : Type 0 where
  pub ip : String
  pub user_agent : String

module _ (w : World) where
  -- `rememberMe ? env.JWT_REFRESH_TTL : env.SESSION_TIMEOUT_MINUTES * 60`, in seconds
  unfoldable pub refresh_ttl : Bool → ℕ
  refresh_ttl remember_me =
      if remember_me then w.jwt_refresh_ttl else w.session_timeout_minutes * 60

module _ (db : Prisma) (w : World) where
  unfoldable pub issue_tokens : User → Device → Bool → Action AuthTokens
  unfolding refresh_ttl
  issue_tokens user device remember_me = do
    let ttl = refresh_ttl w remember_me
    session_id ← draw w.random_uuid
    now ← gets (λ s. s.now)
    let access_token =
        create_access_token w
          (record {
            user_id = user.id;
            email = user.email;
            role = user.role;
            session_id = session_id;
          })
          now
    nonce ← draw w.random_uuid
    let refresh_token = create_refresh_token w user.id session_id (some ttl) nonce now
    csrf_token ← draw w.random_hex
    Sessions.create db (record {
      id = session_id;
      user_id = user.id;
      refresh_token_hash = w.sha256 refresh_token;
      ip_address = device.ip;
      user_agent = device.user_agent;
      device_name = w.describe_device device.user_agent;
      device_fingerprint = some (w.device_fingerprint device.user_agent device.ip);
      status = SessionStatus.active;
      expires_at = now + ttl * 1000;
      last_active_at = now;
      created_at = now;
    })
    pure (record {
      access_token = access_token;
      refresh_token = refresh_token;
      csrf_token = csrf_token;
      expires_in = ttl;
      token_type = "Bearer";
    })
