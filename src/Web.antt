-- ===== src/Web.antt =====
-- The browser side, apps/web: the API client.
pub mod Client
