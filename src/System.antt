-- ===== src/System.antt =====
-- The services of auth.service.ts, mfa.service.ts and admin.service.ts over one store: what every sequence of calls keeps.
pub mod Kept
pub mod Writes
pub mod Challenges
pub mod SignIns
pub mod Accounts
pub mod Registration
pub mod Factors
pub mod Ceremonies
pub mod Lifecycle
pub mod Reachable
pub mod Ended
