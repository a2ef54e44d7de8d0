-- ===== src/System/Factors.antt =====
-- Enrolling, listing and removing second factors keep the session ids unique.
use secure_auth_x_pro.Prelude.{
  ℕ, zero, suc, Bool, true, not, ◌&&◌, is_zero, ltb, get_or, List, [], ◌∷◌, String, ◌==◌, inl, inr,
  Option-cases,
}
use secure_auth_x_pro.Schema.{Session, Store, User, TotpSecret, WebAuthnCredential, register}
use secure_auth_x_pro.Prisma.{Prisma, IsPrisma}
use secure_auth_x_pro.World.{World}
use secure_auth_x_pro.Http.{RequestContext}
use secure_auth_x_pro.Repositories.Users
use secure_auth_x_pro.Repositories.Mfa
use secure_auth_x_pro.Repositories.Mfa.{
  secret_of, credential_of, own_credential, credential_with_id,
}
use secure_auth_x_pro.Jwt.{verify_password}
use secure_auth_x_pro.Cipher.{decrypt}
use secure_auth_x_pro.Totp.{verify_totp}
use secure_auth_x_pro.Cache.{delete_ceremony}
use secure_auth_x_pro.Mfa.Verification.{totp_drift_steps}
use secure_auth_x_pro.Mfa.RecoveryCodes.{
  draw_codes, regenerate_recovery_codes, ensure_recovery_codes,
  regenerate_recovery_codes_with_password,
}
use secure_auth_x_pro.Mfa.Enrollment.{
  Registration, complete_totp_enrollment, complete_webauthn_registration,
}
use secure_auth_x_pro.Mfa.Settings.{clear_flags, remove_webauthn_credential, delete_each, disable}
use secure_auth_x_pro.Mfa.WebAuthn.{of_kind}
use secure_auth_x_pro.System.Kept.{
  IsStable, Kept, stays, then-Kept, if-Kept, or_throw-Kept, require-Kept,
}
use secure_auth_x_pro.System.Writes.{log-Kept, update_user-Kept}
use secure_auth_x_pro.System.Challenges.{get_ceremony-Kept}

module _ {P : List Session → Type 0} (stable : IsStable P) {db : Prisma} (laws : IsPrisma db)
    (w : World) where
  draw_codes-Kept : (n : ℕ) (s : Store) → P s.sessions → Kept P (draw_codes w n s)
  unfolding draw_codes
  draw_codes-Kept zero s i = stays _ _ i
  draw_codes-Kept (suc n) s i = then-Kept _ _ _ (draw_codes-Kept n _ i) (λ _ t j. stays _ _ j)

  create_codes-Kept :
      (user_id : String) (hashes : List String) (s : Store)
      → P s.sessions
      → Kept P (Mfa.create_recovery_codes db user_id hashes s)
  unfolding Mfa.create_recovery_codes
  create_codes-Kept user_id hashes s i =
      elim (Option-cases (Mfa.insert_codes db user_id hashes s.recovery_codes)) [
        | inl e ↦ rw (Mfa.create_recovery_codes, e) (stays _ _ i)
        | inr (_, e) ↦ rw (Mfa.create_recovery_codes, e) (stays _ _ i)
      ]

  regenerate-Kept :
      (user_id : String) (req : RequestContext) (s : Store)
      → P s.sessions
      → Kept P (regenerate_recovery_codes db w user_id req s)
  unfolding regenerate_recovery_codes Mfa.delete_recovery_codes
  regenerate-Kept user_id req s i = then-Kept _ _ _ (draw_codes-Kept _ s i) (λ codes t j.
      then-Kept _ _ _ (create_codes-Kept user_id _ _ j)
        (λ _ t j. then-Kept _ _ _ (log-Kept stable laws _ _ _ _ _ t j) (λ _ t j. stays _ _ j)))

  count_codes-Kept :
      (user_id : String) (s : Store)
      → P s.sessions
      → Kept P (Mfa.count_unused_recovery_codes db user_id s)
  unfolding Mfa.count_unused_recovery_codes
  count_codes-Kept user_id s i = stays _ _ i

  ensure-Kept :
      (user_id : String) (req : RequestContext) (s : Store)
      → P s.sessions
      → Kept P (ensure_recovery_codes db w user_id req s)
  unfolding ensure_recovery_codes
  ensure-Kept user_id req s i = then-Kept _ _ _ (count_codes-Kept user_id s i) (λ remaining t j.
      if-Kept (ltb 0 remaining) _ _ t j (λ t j. stays _ _ j) (regenerate-Kept user_id req))

  pub regenerate_with_password-Kept :
      (user_id password : String) (req : RequestContext) (s : Store)
      → P s.sessions
      → Kept P (regenerate_recovery_codes_with_password db w user_id password req s)
  unfolding regenerate_recovery_codes_with_password Users.find_by_id
  regenerate_with_password-Kept user_id password req s i =
      then-Kept _ _ _ (or_throw-Kept (db.find_first User (Users.with_id user_id) s.users) _ s i)
        (λ user t j.
          then-Kept _ _ _
            (require-Kept (verify_password w password (get_or user.password_hash "")) _ t j)
            (λ _ t j. regenerate-Kept user_id req t j))

  enable-Kept :
      (user_id : String) (s : Store) → P s.sessions → Kept P (Mfa.enable_totp db user_id s)
  unfolding Mfa.enable_totp Mfa.write_totp_secret
  enable-Kept user_id s i =
      elim (Option-cases (
        db.update TotpSecret (secret_of user_id) (λ x. record x { verified = true; enabled = true })
          s.totp_secrets)) [
            | inl e ↦ rw (Mfa.enable_totp, Mfa.write_totp_secret, e) (stays _ _ i)
            | inr (_, e) ↦ rw (Mfa.enable_totp, Mfa.write_totp_secret, e) (stays _ _ i)
          ]

  pub complete_totp_enrollment-Kept :
      (user_id code : String) (req : RequestContext) (s : Store)
      → P s.sessions
      → Kept P (complete_totp_enrollment db w user_id code req s)
  unfolding complete_totp_enrollment Mfa.get_totp_secret
  complete_totp_enrollment-Kept user_id code req s i =
      then-Kept _ _ _
        (or_throw-Kept (db.find_first TotpSecret (secret_of user_id) s.totp_secrets) _ s i)
        (λ row t j. then-Kept _ _ _ (or_throw-Kept (decrypt w row.secret) _ t j) (λ secret t j.
          then-Kept _ _ _ (or_throw-Kept (verify_totp w secret code totp_drift_steps t.now) _ t j)
            (λ valid t j. then-Kept _ _ _ (require-Kept valid _ t j) (λ _ t j.
              then-Kept _ _ _ (enable-Kept user_id t j) (λ _ t j.
                then-Kept _ _ _ (update_user-Kept stable laws _ _ t j) (λ _ t j.
                  then-Kept _ _ _ (log-Kept stable laws _ _ _ _ _ t j)
                    (λ _ t j. ensure-Kept user_id req t j)))))))

  delete_each-Kept :
      (user_id : String) (cs : List WebAuthnCredential) (s : Store)
      → P s.sessions
      → Kept P (delete_each db w user_id cs s)
  unfolding delete_each Mfa.delete_credential
  delete_each-Kept user_id [] s i = stays _ _ i
  delete_each-Kept user_id (c ∷ cs) s i = delete_each-Kept user_id cs _ i

  pub disable-Kept :
      (user_id password : String) (req : RequestContext) (s : Store)
      → P s.sessions
      → Kept P (disable db w user_id password req s)
  unfolding disable Users.find_by_id Mfa.delete_totp_secret Mfa.delete_recovery_codes
      Mfa.list_credentials Mfa.revoke_all_trusted_devices
  disable-Kept user_id password req s i =
      then-Kept _ _ _ (or_throw-Kept (db.find_first User (Users.with_id user_id) s.users) _ s i)
        (λ user t j.
          then-Kept _ _ _
            (require-Kept (verify_password w password (get_or user.password_hash "")) _ t j)
            (λ _ t j.
              then-Kept _ _ _
                (delete_each-Kept user_id
                  (db.find_many WebAuthnCredential (λ c. c.created_at) (credential_of user_id)
                    t.credentials)
                  _ j)
                (λ _ t j.
                  then-Kept _ _ _ (update_user-Kept stable laws _ _ _ j)
                    (λ _ t j. log-Kept stable laws _ _ _ _ _ t j))))

  clear_flags-Kept :
      (user_id : String) (remaining : ℕ) (totp_on : Bool) (s : Store)
      → P s.sessions
      → Kept P (clear_flags db w user_id remaining totp_on s)
  unfolding clear_flags
  clear_flags-Kept user_id remaining totp_on s i =
      if-Kept (is_zero remaining && not totp_on) _ _ s i
        (λ t j. then-Kept _ _ _ (update_user-Kept stable laws _ _ t j) (λ _ t j. stays _ _ j))
        (λ t j.
          if-Kept (is_zero remaining) _ _ t j
            (λ t j. then-Kept _ _ _ (update_user-Kept stable laws _ _ t j) (λ _ t j. stays _ _ j))
            (λ t j. stays _ _ j))

  pub remove_credential-Kept :
      (user_id credential_id : String) (req : RequestContext) (s : Store)
      → P s.sessions
      → Kept P (remove_webauthn_credential db w user_id credential_id req s)
  unfolding remove_webauthn_credential Mfa.get_credential_for_user Mfa.delete_credential
      Mfa.count_credentials Mfa.get_totp_secret
  remove_credential-Kept user_id credential_id req s i =
      then-Kept _ _ _
        (or_throw-Kept
          (db.find_first WebAuthnCredential (own_credential user_id credential_id) s.credentials) _
          s i)
        (λ _ t j.
          then-Kept _ _ _ (log-Kept stable laws _ _ _ _ _ _ j)
            (λ _ t j. clear_flags-Kept user_id _ _ t j))

  create_credential-Kept :
      (c : WebAuthnCredential) (s : Store) → P s.sessions → Kept P (Mfa.create_credential db c s)
  unfolding Mfa.create_credential
  create_credential-Kept c s i =
      elim (Option-cases (
        db.create WebAuthnCredential (credential_with_id c.credential_id)
          (record c { last_used_at = s.now; created_at = s.now }) s.credentials)) [
            | inl e ↦ rw (Mfa.create_credential, e) (stays _ _ i)
            | inr (_, e) ↦ rw (Mfa.create_credential, e) (stays _ _ i)
          ]

  pub complete_registration-Kept :
      (id user_id device_name : String) (registration : Registration) (req : RequestContext)
      (s : Store)
      → P s.sessions
      → Kept P (complete_webauthn_registration db w id user_id device_name registration req s)
  unfolding complete_webauthn_registration delete_ceremony
  complete_registration-Kept id user_id device_name registration req s i =
      then-Kept _ _ _ (get_ceremony-Kept id s i) (λ pending t j.
        then-Kept _ _ _ (or_throw-Kept (of_kind register pending) _ t j) (λ ceremony t j.
          then-Kept _ _ _ (require-Kept (ceremony.user_id == user_id) _ t j) (λ _ t j.
            then-Kept _ _ _
              (or_throw-Kept
                (w.verify_registration registration.response ceremony.expected_challenge
                  ceremony.expected_origin ceremony.expected_rp_id)
                _ t j)
              (λ verification t j.
                then-Kept _ _ _ (or_throw-Kept verification _ t j) (λ verified t j.
                  then-Kept _ _ _ (create_credential-Kept _ t j) (λ _ t j.
                    then-Kept _ _ _ (update_user-Kept stable laws _ _ t j) (λ _ t j.
                      then-Kept _ _ _ (log-Kept stable laws _ _ _ _ _ t j)
                        (λ _ t j. ensure-Kept user_id req _ j))))))))
