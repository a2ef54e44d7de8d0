-- ===== src/Api.antt =====
-- The hono application of apps/api: guards, cookies, responses, errors and routes.
pub mod Environment
pub mod Guards
pub mod Requests
pub mod Cookies
pub mod Replies
pub mod Pipeline
pub mod Controllers
pub mod Routes
pub mod Renewal
