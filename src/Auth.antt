-- ===== src/Auth.antt =====
-- apps/api/src/services/auth.service.ts: the authentication lifecycle.
pub mod Responses
pub mod Registration
pub mod Tokens
pub mod Login
pub mod Completion
pub mod Refresh
pub mod Logout
pub mod Renewal
