-- ===== src/Repositories.antt =====
-- packages/database/src/repositories: the queries of the services, over the client `db`.
pub mod Users
pub mod Sessions
pub mod EmailVerifications
pub mod Audits
pub mod Security
pub mod Mfa
pub mod Effects
