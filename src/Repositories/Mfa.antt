-- ===== src/Repositories/Mfa.antt =====
-- packages/database/src/repositories/mfa.repository.ts
mod Secrets
mod Devices
unfoldable pub use Secrets.*
unfoldable pub use Devices.*
