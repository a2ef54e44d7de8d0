-- ===== src/Mfa/Enrollment.antt =====
-- mfa.service.ts: enrolling an authenticator app or a security key.
pub mod Authenticator
use secure_auth_x_pro.Prelude.{
  true, List, [], ◌∷◌, map, none, some, String, ◌==◌, is_empty, if◌then◌else◌,
}
use secure_auth_x_pro.Schema.{info, text, register, WebAuthnCredential}
use secure_auth_x_pro.Prisma.{Prisma}
use secure_auth_x_pro.World.{World, RegistrationInfo}
use secure_auth_x_pro.Http.{RequestContext, get_user_agent}
use secure_auth_x_pro.Exec.{
  Action, app, library_error, bad_request, forbidden, not_found, internal, pure, gets, draw,
  require, or_throw, ◌>>=◌, ◌>>◌,
}
use secure_auth_x_pro.Repositories.Users
use secure_auth_x_pro.Repositories.Audits
use secure_auth_x_pro.Repositories.Mfa
use secure_auth_x_pro.Cache.{set_ceremony, get_ceremony, delete_ceremony}
use secure_auth_x_pro.Cipher.{encrypt, decrypt, iv_bytes}
use secure_auth_x_pro.Totp.{verify_totp, generate_totp_secret}
use secure_auth_x_pro.Mfa.RecoveryCodes.{ensure_recovery_codes}
use secure_auth_x_pro.Mfa.Verification.{totp_drift_steps}
use secure_auth_x_pro.Mfa.WebAuthn.{CeremonyOptions, of_kind}

-- RegistrationResponseJSON
pub record Registration : Type 0 where
  pub response : String
  pub transports : List String

module _ (db : Prisma) (w : World) where
  -- The secret; its `otpauth:` URL is built from it and the user's email for display only.
  unfoldable pub begin_totp_enrollment : String → Action String
  begin_totp_enrollment user_id = do
    found ← Users.find_by_id db user_id
    user ← or_throw found (app (not_found "User not found."))
    secret ← draw (generate_totp_secret w)
    iv ← draw (w.random_bytes iv_bytes)
    Mfa.upsert_pending_totp_secret db user_id (encrypt w secret iv)
    pure secret

  unfoldable pub complete_totp_enrollment : String → String → RequestContext → Action (List String)
  complete_totp_enrollment user_id code req = do
    found ← Mfa.get_totp_secret db user_id
    row ← or_throw found (app (bad_request "Start TOTP setup before verifying a code."))
    secret ←
        or_throw (decrypt w row.secret) (app (internal "Could not verify the enrollment code."))
    now ← gets (λ s. s.now)
    valid ← or_throw (verify_totp w secret code totp_drift_steps now) library_error
    require valid (bad_request "The code is incorrect or has expired. Try again.")
    Mfa.enable_totp db user_id
    Users.update db user_id (λ u. record u { totp_enabled = true; mfa_enabled = true })
    Audits.log db (some user_id) "mfa.totp_enabled" info req (("method", text "totp") ∷ [])
    ensure_recovery_codes db w user_id req

  unfoldable pub begin_webauthn_registration : String → Action (String × CeremonyOptions)
  begin_webauthn_registration user_id = do
    found ← Users.find_by_id db user_id
    user ← or_throw found (app (not_found "User not found."))
    existing ← Mfa.list_credentials db user_id
    challenge ← draw w.webauthn_challenge
    challenge_id ← draw w.random_uuid
    now ← gets (λ s. s.now)
    set_ceremony w.mfa_challenge_ttl challenge_id (record {
      kind = register;
      user_id = user_id;
      login_challenge_id = none;
      expected_challenge = challenge;
      expected_origin = w.webauthn_origin;
      expected_rp_id = w.webauthn_rp_id;
      created_at = now;
    })
    pure (
      challenge_id,
      record {
        challenge = challenge;
        credential_ids = map (λ (c : WebAuthnCredential). c.credential_id) existing;
      },
    )

  -- The credential that is stored after a verified registration.
  abbrev new_credential :
      String → String → Registration → RegistrationInfo → RequestContext → WebAuthnCredential
  new_credential user_id device_name registration verified req = record {
    user_id = user_id;
    credential_id = verified.credential_id;
    public_key = verified.public_key;
    sign_count = verified.counter;
    device_name =
        if is_empty device_name then w.describe_device (get_user_agent req) else device_name;
    transports = registration.transports;
    aaguid = some verified.aaguid;
    last_used_at = 0;
    created_at = 0;
  }

  unfoldable pub complete_webauthn_registration :
      String → String → String → Registration → RequestContext → Action (List String)
  complete_webauthn_registration challenge_id user_id device_name registration req = do
    pending ← get_ceremony challenge_id
    ceremony ←
        or_throw (of_kind register pending)
          (app (bad_request "Registration session is invalid or has expired."))
    require (ceremony.user_id == user_id)
        (forbidden "Registration session does not belong to this account.")
    verification ←
        or_throw
          (w.verify_registration registration.response ceremony.expected_challenge
            ceremony.expected_origin ceremony.expected_rp_id)
          library_error
    verified ← or_throw verification (app (bad_request "Security key verification failed."))
    Mfa.create_credential db (new_credential user_id device_name registration verified req)
    Users.update db user_id (λ u. record u { webauthn_enabled = true; mfa_enabled = true })
    Audits.log db (some user_id) "mfa.webauthn_registered" info req
        (("method", text "webauthn") ∷ ("credentialId", text verified.credential_id) ∷ [])
    delete_ceremony challenge_id
    ensure_recovery_codes db w user_id req
