-- ===== src/Mfa.antt =====
-- apps/api/src/services/mfa.service.ts: the second factor. The methods are grouped as in the
-- source; `db` is the database client and `w` the environment and the packages.
pub mod Challenges
pub mod RecoveryCodes
pub mod Devices
pub mod Verification
pub mod WebAuthn
pub mod Enrollment
pub mod Settings
