-- ===== src/Api/Controllers.antt =====
-- The controllers of apps/api/src/controllers, as actions that return what is answered.
pub mod Auth
pub mod Mfa
pub mod Admin
pub mod Security
