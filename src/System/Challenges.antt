-- ===== src/System/Challenges.antt =====
-- The second factors keep the session ids unique: challenges, trusted devices, and the three ways
-- to complete a login.
use secure_auth_x_pro.Prelude.{
  List, if◌then◌else◌, ℕ, Bool, true, false, Option, none, some, String, lookup, is_empty, inl, inr,
  Bool-cases, Option-cases,
}
use secure_auth_x_pro.Schema.{
  Session, Store, User, TrustedDevice, WebAuthnCredential, TotpSecret, authenticate,
}
use secure_auth_x_pro.Prisma.{Prisma, IsPrisma}
use secure_auth_x_pro.World.{World}
use secure_auth_x_pro.Http.{RequestContext, trusted_device_cookie}
use secure_auth_x_pro.Exec.{Failure}
use secure_auth_x_pro.Repositories.Users
use secure_auth_x_pro.Repositories.Mfa
use secure_auth_x_pro.Repositories.Mfa.{own_device, own_credential, secret_of, credential_with_id}
use secure_auth_x_pro.Cache.{
  cache_get, cache_set, key, is_stale, get_challenge, get_ceremony, set_challenge, delete_challenge,
  delete_ceremony, challenge_prefix, ceremony_prefix,
}
use secure_auth_x_pro.Cipher.{decrypt}
use secure_auth_x_pro.Totp.{verify_totp}
use secure_auth_x_pro.Mfa.RecoveryCodes.{code_hash}
use secure_auth_x_pro.Mfa.Challenges.{issue_login_challenge, get_challenge_user, account_gone}
use secure_auth_x_pro.Mfa.Devices.{
  known_device, cookie_trusted, is_device_trusted, trust_device, trust_if,
}
use secure_auth_x_pro.Mfa.Verification.{
  totp_drift_steps, reject_login, verify_totp_login, verify_recovery_login,
}
use secure_auth_x_pro.Mfa.WebAuthn.{Assertion, of_kind, when_verified, verify_webauthn_login}
use secure_auth_x_pro.System.Kept.{
  IsStable, Kept, stays, then-Kept, if-Kept, or_throw-Kept, or_reject-Kept,
}
use secure_auth_x_pro.System.Writes.{log-Kept}

module _ {P : List Session → Type 0} where
  cache_get-Kept : (k : String) (s : Store) → P s.sessions → Kept P (cache_get k s)
  unfolding cache_get
  cache_get-Kept k s i = elim (Option-cases (lookup k s.cache)) [
    | inl e ↦ rw (cache_get, e) (stays _ _ i)
    | inr (item, e) ↦ elim (Bool-cases (is_stale item.expires_at s.now)) [
      | inl stale ↦ rw (cache_get, e, stale) (stays _ _ i)
      | inr fresh ↦ rw (cache_get, e, fresh) (stays _ _ i)
    ]
  ]

  get_challenge-Kept : (id : String) (s : Store) → P s.sessions → Kept P (get_challenge id s)
  unfolding get_challenge
  get_challenge-Kept id s i = stays _ _ (cache_get-Kept (key challenge_prefix id) s i).kept

  pub get_ceremony-Kept : (id : String) (s : Store) → P s.sessions → Kept P (get_ceremony id s)
  unfolding get_ceremony
  get_ceremony-Kept id s i = stays _ _ (cache_get-Kept (key ceremony_prefix id) s i).kept

  pub challenge_user-Kept :
      (id : String) (s : Store) → P s.sessions → Kept P (get_challenge_user id s)
  unfolding get_challenge_user
  challenge_user-Kept id s i =
      then-Kept _ _ _ (get_challenge-Kept id s i)
        (λ found t j. then-Kept _ _ _ (or_throw-Kept found _ t j) (λ _ u k. stays _ _ k))

module _ {P : List Session → Type 0} (stable : IsStable P) {db : Prisma} (laws : IsPrisma db)
    (w : World) where
  pub issue_challenge-Kept :
      (user_id : String) (remember_me : Bool) (s : Store)
      → P s.sessions
      → Kept P (issue_login_challenge db w user_id remember_me s)
  unfolding issue_login_challenge Users.find_by_id set_challenge cache_set
  issue_challenge-Kept user_id remember_me s i =
      then-Kept _ _ _
        (or_throw-Kept (db.find_first User (Users.with_id user_id) s.users) account_gone s i)
        (λ user t j. stays _ _ j)

  touch-Kept :
      (user_id fingerprint : String) (s : Store)
      → P s.sessions
      → Kept P (Mfa.touch_trusted_device db user_id fingerprint s)
  unfolding Mfa.touch_trusted_device
  touch-Kept user_id fingerprint s i =
      elim (Option-cases (
        db.update TrustedDevice (own_device user_id fingerprint)
          (λ d. record d { last_used_at = s.now }) s.trusted_devices)) [
            | inl e ↦ rw (Mfa.touch_trusted_device, e) (stays _ _ i)
            | inr (_, e) ↦ rw (Mfa.touch_trusted_device, e) (stays _ _ i)
          ]

  known-Kept :
      (user_id : String) (found : Option TrustedDevice) (s : Store)
      → P s.sessions
      → Kept P (known_device db w user_id found s)
  unfolding known_device
  known-Kept user_id none s i = stays _ _ i
  known-Kept user_id (some d) s i =
      then-Kept _ _ _ (touch-Kept user_id d.device_fingerprint s i) (λ _ t j. stays _ _ j)

  cookie-Kept :
      (user_id : String) (cookie : Option String) (s : Store)
      → P s.sessions
      → Kept P (cookie_trusted db w user_id cookie s)
  unfolding cookie_trusted Mfa.get_trusted_device
  cookie-Kept user_id none s i = stays _ _ i
  cookie-Kept user_id (some token) s i =
      if-Kept (is_empty token) _ _ s i (λ t j. stays _ _ j) (λ t j. known-Kept user_id _ t j)

  pub device_trusted-Kept :
      (user_id : String) (req : RequestContext) (s : Store)
      → P s.sessions
      → Kept P (is_device_trusted db w user_id req s)
  unfolding is_device_trusted
  device_trusted-Kept user_id req s i =
      cookie-Kept user_id (lookup trusted_device_cookie req.cookies) s i

  upsert-Kept :
      (new : TrustedDevice) (s : Store) → P s.sessions → Kept P (Mfa.trust_device db new s)
  unfolding Mfa.trust_device
  upsert-Kept new s i =
      let row = own_device new.user_id new.device_fingerprint in
      elim (Option-cases
        (db.update TrustedDevice row (λ d. record d { last_used_at = s.now }) s.trusted_devices)) [
          | inl absent ↦
              elim (Option-cases (
                db.create TrustedDevice row
                  (record new { trusted_at = s.now; last_used_at = s.now }) s.trusted_devices)) [
                    | inl e ↦ rw (Mfa.trust_device, absent, e) (stays _ _ i)
                    | inr (_, e) ↦ rw (Mfa.trust_device, absent, e) (stays _ _ i)
                  ]
          | inr (_, e) ↦ rw (Mfa.trust_device, e) (stays _ _ i)
        ]

  trust-Kept :
      (user_id : String) (req : RequestContext) (s : Store)
      → P s.sessions
      → Kept P (trust_device db w user_id req s)
  unfolding trust_device
  trust-Kept user_id req s i =
      then-Kept _ _ _ (upsert-Kept _ _ i)
        (λ _ t j. then-Kept _ _ _ (log-Kept stable laws _ _ _ _ _ t j) (λ _ u k. stays _ _ k))

  trust_if-Kept :
      (remember : Bool) (user_id : String) (req : RequestContext) (s : Store)
      → P s.sessions
      → Kept P (trust_if db w remember user_id req s)
  unfolding trust_if
  trust_if-Kept false user_id req s i = stays _ _ i
  trust_if-Kept true user_id req s i =
      then-Kept _ _ _ (trust-Kept user_id req s i) (λ _ t j. stays _ _ j)

  reject-Kept :
      (A : Type 0) (user_id : String) (req : RequestContext) (method reason : String) (e : Failure)
      (s : Store)
      → P s.sessions
      → Kept P {A = A} (reject_login db w user_id req method reason e s)
  unfolding reject_login
  reject-Kept A user_id req method reason e s i =
      then-Kept _ _ _ (log-Kept stable laws _ _ _ _ _ s i) (λ _ t j. stays _ _ j)

  consume-Kept :
      (user_id hash : String) (s : Store)
      → P s.sessions
      → Kept P (Mfa.consume_recovery_code db user_id hash s)
  unfolding Mfa.consume_recovery_code
  consume-Kept user_id hash s i = stays _ _ i

  pub totp_login-Kept :
      (id code : String) (remember : Bool) (req : RequestContext) (s : Store)
      → P s.sessions
      → Kept P (verify_totp_login db w id code remember req s)
  unfolding verify_totp_login Mfa.get_totp_secret delete_challenge
  totp_login-Kept id code remember req s i =
      then-Kept _ _ _ (challenge_user-Kept id s i) (λ user_id t j.
        then-Kept _ _ _
          (or_reject-Kept (db.find_first TotpSecret (secret_of user_id) t.totp_secrets) _ t j
            (reject-Kept _ _ _ _ _ _))
          (λ row t j.
            then-Kept _ _ _ (or_reject-Kept (decrypt w row.secret) _ t j (reject-Kept _ _ _ _ _ _))
              (λ secret t j.
                then-Kept _ _ _
                  (or_throw-Kept (verify_totp w secret code totp_drift_steps t.now) _ t j)
                  (λ valid t j.
                    then-Kept _ _ _
                      (or_reject-Kept (if valid then some tt else none) _ t j
                        (reject-Kept _ _ _ _ _ _))
                      (λ _ t j.
                        then-Kept _ _ _ (trust_if-Kept remember user_id req _ j)
                          (λ _ t j. stays _ _ j))))))

  pub recovery_login-Kept :
      (id code : String) (req : RequestContext) (s : Store)
      → P s.sessions
      → Kept P (verify_recovery_login db w id code req s)
  unfolding verify_recovery_login delete_challenge
  recovery_login-Kept id code req s i = then-Kept _ _ _ (challenge_user-Kept id s i) (λ user_id t j.
      then-Kept _ _ _ (consume-Kept user_id (code_hash w code) t j) (λ consumed t j.
        then-Kept _ _ _
          (or_reject-Kept (if consumed then some tt else none) _ t j (reject-Kept _ _ _ _ _ _))
          (λ _ t j. then-Kept _ _ _ (log-Kept stable laws _ _ _ _ _ _ j) (λ _ t j. stays _ _ j))))

  counter-Kept :
      (credential_id : String) (counter : ℕ) (s : Store)
      → P s.sessions
      → Kept P (Mfa.update_credential_counter db credential_id counter s)
  unfolding Mfa.update_credential_counter
  counter-Kept credential_id counter s i =
      elim (Option-cases (
        db.update WebAuthnCredential (credential_with_id credential_id)
          (λ c. record c { sign_count = counter; last_used_at = s.now }) s.credentials)) [
            | inl e ↦ rw (Mfa.update_credential_counter, e) (stays _ _ i)
            | inr (_, e) ↦ rw (Mfa.update_credential_counter, e) (stays _ _ i)
          ]

  pub webauthn_login-Kept :
      (id : String) (credential : Assertion) (remember : Bool) (req : RequestContext) (s : Store)
      → P s.sessions
      → Kept P (verify_webauthn_login db w id credential remember req s)
  unfolding verify_webauthn_login Mfa.get_credential_for_user delete_challenge delete_ceremony
  webauthn_login-Kept id credential remember req s i =
      then-Kept _ _ _ (challenge_user-Kept id s i) (λ user_id t j.
        then-Kept _ _ _ (get_ceremony-Kept id t j) (λ pending t j.
          then-Kept _ _ _ (or_throw-Kept (of_kind authenticate pending) _ t j) (λ ceremony t j.
            then-Kept _ _ _
              (or_reject-Kept
                (db.find_first WebAuthnCredential (own_credential user_id credential.id)
                  t.credentials)
                _ t j (reject-Kept _ _ _ _ _ _))
              (λ stored t j.
                then-Kept _ _ _
                  (or_reject-Kept
                    (w.verify_assertion credential.response ceremony.expected_challenge
                      ceremony.expected_origin ceremony.expected_rp_id stored.sign_count
                      stored.public_key)
                    _ t j (reject-Kept _ _ _ _ _ _))
                  (λ answer t j.
                    then-Kept _ _ _
                      (or_reject-Kept (when_verified answer) _ t j (reject-Kept _ _ _ _ _ _))
                      (λ counter t j. then-Kept _ _ _ (counter-Kept _ _ t j) (λ _ t j.
                        then-Kept _ _ _ (trust_if-Kept remember user_id req _ j)
                          (λ _ t j. stays _ _ j))))))))
