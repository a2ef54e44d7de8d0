-- ===== src/Api/Environment.antt =====
-- The settings of packages/config/src/env.ts that only the hono application reads.
use secure_auth_x_pro.Prelude.{ℕ, Bool, String}

pub data SameSite : Type 0 where
  lax strict unrestricted : SameSite

pub record ApiEnv : Type 0 where
  -- NODE_ENV === 'production'
  pub production : Bool
  pub cookie_domain : String
  pub cookie_secure : Bool
  -- `none` of the source is `unrestricted` here
  pub cookie_same_site : SameSite
  pub trusted_device_ttl_days : ℕ
  pub rate_limit_window_ms : ℕ
  pub rate_limit_max : ℕ
  pub auth_rate_limit_max : ℕ
