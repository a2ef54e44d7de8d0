-- ===== src/System/Ceremonies.antt =====
-- Starting an enrolment or a security key login keeps the session ids unique.
use secure_auth_x_pro.Prelude.{List, String, inl, inr, Option-cases}
use secure_auth_x_pro.Schema.{Session, Store, User, TotpSecret}
use secure_auth_x_pro.Prisma.{Prisma}
use secure_auth_x_pro.World.{World}
use secure_auth_x_pro.Repositories.Users
use secure_auth_x_pro.Repositories.Mfa
use secure_auth_x_pro.Repositories.Mfa.{secret_of}
use secure_auth_x_pro.Cache.{set_ceremony, cache_set}
use secure_auth_x_pro.Mfa.Enrollment.{begin_totp_enrollment, begin_webauthn_registration}
use secure_auth_x_pro.Mfa.WebAuthn.{begin_webauthn_login}
use secure_auth_x_pro.System.Kept.{Kept, stays, then-Kept, or_throw-Kept}
use secure_auth_x_pro.System.Challenges.{challenge_user-Kept}

module _ {P : List Session → Type 0} (db : Prisma) where
  write_secret-Kept :
      (user_id : String) (f : TotpSecret → TotpSecret) (s : Store)
      → P s.sessions
      → Kept P (Mfa.write_totp_secret db user_id f s)
  unfolding Mfa.write_totp_secret
  write_secret-Kept user_id f s i =
      elim (Option-cases (db.update TotpSecret (secret_of user_id) f s.totp_secrets)) [
        | inl e ↦ rw (Mfa.write_totp_secret, e) (stays _ _ i)
        | inr (_, e) ↦ rw (Mfa.write_totp_secret, e) (stays _ _ i)
      ]

  insert_secret-Kept :
      (x : TotpSecret) (s : Store) → P s.sessions → Kept P (Mfa.insert_totp_secret db x s)
  unfolding Mfa.insert_totp_secret
  insert_secret-Kept x s i =
      elim (Option-cases (db.create TotpSecret (secret_of x.user_id) x s.totp_secrets)) [
        | inl e ↦ rw (Mfa.insert_totp_secret, e) (stays _ _ i)
        | inr (_, e) ↦ rw (Mfa.insert_totp_secret, e) (stays _ _ i)
      ]

  upsert_secret-Kept :
      (user_id secret : String) (s : Store)
      → P s.sessions
      → Kept P (Mfa.upsert_pending_totp_secret db user_id secret s)
  unfolding Mfa.upsert_pending_totp_secret
  upsert_secret-Kept user_id secret s i =
      elim (Option-cases (db.find_first TotpSecret (secret_of user_id) s.totp_secrets)) [
        | inl e ↦ rw (Mfa.upsert_pending_totp_secret, e) (insert_secret-Kept _ s i)
        | inr (_, e) ↦ rw (Mfa.upsert_pending_totp_secret, e) (write_secret-Kept user_id _ s i)
      ]

  module _ (w : World) where
    pub begin_enrollment-Kept :
        (user_id : String) (s : Store)
        → P s.sessions
        → Kept P (begin_totp_enrollment db w user_id s)
    unfolding begin_totp_enrollment Users.find_by_id
    begin_enrollment-Kept user_id s i =
        then-Kept _ _ _ (or_throw-Kept (db.find_first User (Users.with_id user_id) s.users) _ s i)
          (λ user t j. then-Kept _ _ _ (upsert_secret-Kept user_id _ _ j) (λ _ t j. stays _ _ j))

    pub begin_registration-Kept :
        (user_id : String) (s : Store)
        → P s.sessions
        → Kept P (begin_webauthn_registration db w user_id s)
    unfolding begin_webauthn_registration Users.find_by_id Mfa.list_credentials set_ceremony
        cache_set
    begin_registration-Kept user_id s i =
        then-Kept _ _ _ (or_throw-Kept (db.find_first User (Users.with_id user_id) s.users) _ s i)
          (λ user t j. stays _ _ j)

    pub begin_login-Kept :
        (id : String) (s : Store) → P s.sessions → Kept P (begin_webauthn_login db w id s)
    unfolding begin_webauthn_login Mfa.list_credentials set_ceremony cache_set
    begin_login-Kept id s i =
        then-Kept _ _ _ (challenge_user-Kept id s i) (λ user_id t j. stays _ _ j)
