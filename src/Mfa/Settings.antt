-- ===== src/Mfa/Settings.antt =====
-- mfa.service.ts: the status page, removing a security key, and disabling MFA.
pub mod Disabling
use secure_auth_x_pro.Prelude.{
  ℕ, Bool, false, not, ◌&&◌, List, [], ◌∷◌, map, Option, none, some, String, length, get_or,
  is_zero, if◌then◌else◌,
}
use secure_auth_x_pro.Schema.{info, text, number, TotpSecret, WebAuthnCredential}
use secure_auth_x_pro.Prisma.{Prisma}
use secure_auth_x_pro.World.{World}
use secure_auth_x_pro.Http.{RequestContext}
use secure_auth_x_pro.Exec.{Action, app, forbidden, not_found, pure, require, or_throw, ◌>>=◌, ◌>>◌}
use secure_auth_x_pro.Repositories.Users
use secure_auth_x_pro.Repositories.Audits
use secure_auth_x_pro.Repositories.Mfa
use secure_auth_x_pro.Jwt.{verify_password}

-- WebAuthnCredentialInfo
pub record CredentialInfo : Type 0 where
  pub id : String
  pub name : String
  pub created_at : ℕ
  pub last_used_at : ℕ

-- MfaStatus
pub record MfaStatus : Type 0 where
  pub mfa_enabled : Bool
  pub totp_enabled : Bool
  pub webauthn_enabled : Bool
  pub webauthn_credentials : List CredentialInfo
  pub recovery_codes_remaining : ℕ

abbrev to_info : WebAuthnCredential → CredentialInfo
to_info c = record {
  id = c.credential_id;
  name = c.device_name;
  created_at = c.created_at;
  last_used_at = c.last_used_at;
}

-- `totp?.enabled`
abbrev pub is_enabled : Option TotpSecret → Bool
is_enabled none = false
is_enabled (some x) = x.enabled

module _ (db : Prisma) (w : World) where
  unfoldable pub get_status : String → Action MfaStatus
  get_status user_id = do
    found ← Users.find_by_id db user_id
    user ← or_throw found (app (not_found "User not found."))
    credentials ← Mfa.list_credentials db user_id
    remaining ← Mfa.count_unused_recovery_codes db user_id
    pure (record {
      mfa_enabled = user.mfa_enabled;
      totp_enabled = user.totp_enabled;
      webauthn_enabled = user.webauthn_enabled;
      webauthn_credentials = map to_info credentials;
      recovery_codes_remaining = remaining;
    })

  -- The flags after a removal that leaves `remaining` keys.
  unfoldable pub clear_flags : String → ℕ → Bool → Action (Unit {0})
  clear_flags user_id remaining totp_on =
      if is_zero remaining && not totp_on
      then (do
        Users.update db user_id (λ u. record u { webauthn_enabled = false; mfa_enabled = false })
        pure tt)
      else if is_zero remaining
      then (do Users.update db user_id (λ u. record u { webauthn_enabled = false }); pure tt)
      else pure tt

  unfoldable pub remove_webauthn_credential : String → String → RequestContext → Action (Unit {0})
  unfolding clear_flags
  remove_webauthn_credential user_id credential_id req = do
    exists ← Mfa.get_credential_for_user db user_id credential_id
    or_throw exists (app (not_found "Security key not found."))
    Mfa.delete_credential db user_id credential_id
    Audits.log db (some user_id) "mfa.webauthn_removed" info req
        (("credentialId", text credential_id) ∷ [])
    remaining ← Mfa.count_credentials db user_id
    totp ← Mfa.get_totp_secret db user_id
    clear_flags user_id remaining (is_enabled totp)

  -- The loop over the listed credentials.
  unfoldable pub delete_each : String → List WebAuthnCredential → Action (Unit {0})
  delete_each user_id [] = pure tt
  delete_each user_id (c ∷ cs) = do
    Mfa.delete_credential db user_id c.credential_id
    delete_each user_id cs

  unfoldable pub disable : String → String → RequestContext → Action (Unit {0})
  unfolding delete_each
  disable user_id password req = do
    found ← Users.find_by_id db user_id
    user ← or_throw found (app (not_found "User not found."))
    require (verify_password w password (get_or user.password_hash ""))
        (forbidden "Incorrect password.")
    Mfa.delete_totp_secret db user_id
    Mfa.delete_recovery_codes db user_id
    credentials ← Mfa.list_credentials db user_id
    delete_each user_id credentials
    Mfa.revoke_all_trusted_devices db user_id
    Users.update db user_id
        (λ u. record u { totp_enabled = false; webauthn_enabled = false; mfa_enabled = false })
    Audits.log db (some user_id) "mfa.totp_disabled" info req
        (("reason", text "mfa_disabled") ∷ ("removedCredentials", number (length credentials)) ∷ [])
