-- ===== src/Repositories/Mfa/Devices.antt =====
-- packages/database/src/repositories/mfa.repository.ts: WebAuthn credentials and trusted devices.
use secure_auth_x_pro.Prelude.{ℕ, Bool, ◌&&◌, Option, none, some, List, String, ◌==◌}
use secure_auth_x_pro.Schema.{WebAuthnCredential, TrustedDevice}
use secure_auth_x_pro.Prisma.{Prisma}
use secure_auth_x_pro.Exec.{Action, record_missing, unique_violation, ok, err}

abbrev pub credential_of : String → WebAuthnCredential → Bool
credential_of user_id c = c.user_id == user_id

abbrev pub credential_with_id : String → WebAuthnCredential → Bool
credential_with_id credential_id c = c.credential_id == credential_id

abbrev pub own_credential : String → String → WebAuthnCredential → Bool
own_credential user_id credential_id c =
    (c.user_id == user_id) && (c.credential_id == credential_id)

abbrev pub device_of : String → TrustedDevice → Bool
device_of user_id d = d.user_id == user_id

-- The unique key `userId_deviceFingerprint`.
abbrev pub own_device : String → String → TrustedDevice → Bool
own_device user_id fingerprint d = (d.user_id == user_id) && (d.device_fingerprint == fingerprint)

module _ (db : Prisma) where
  unfoldable pub get_credential_for_user : String → String → Action (Option WebAuthnCredential)
  get_credential_for_user user_id credential_id s = (
    ok (db.find_first WebAuthnCredential (own_credential user_id credential_id) s.credentials),
    s,
  )

  unfoldable pub create_credential : WebAuthnCredential → Action (Unit {0})
  create_credential c s =
      elim (db.create WebAuthnCredential (credential_with_id c.credential_id)
        (record c { last_used_at = s.now; created_at = s.now }) s.credentials) [
          | none ↦ (err unique_violation, s)
          | some t ↦ (ok tt, record s { credentials = t })
        ]

  unfoldable pub update_credential_counter : String → ℕ → Action (Unit {0})
  update_credential_counter credential_id sign_count s =
      elim (db.update WebAuthnCredential (credential_with_id credential_id)
        (λ c. record c { sign_count = sign_count; last_used_at = s.now }) s.credentials) [
          | none ↦ (err record_missing, s)
          | some (c, t) ↦ (ok tt, record s { credentials = t })
        ]

  unfoldable pub list_credentials : String → Action (List WebAuthnCredential)
  list_credentials user_id s = (
    ok (db.find_many WebAuthnCredential (λ c. c.created_at) (credential_of user_id) s.credentials),
    s,
  )

  unfoldable pub count_credentials : String → Action ℕ
  count_credentials user_id s =
      (ok (db.count WebAuthnCredential (credential_of user_id) s.credentials), s)

  unfoldable pub delete_credential : String → String → Action (Unit {0})
  delete_credential user_id credential_id s = (
    ok tt,
    record s {
      credentials =
          db.delete_many WebAuthnCredential (own_credential user_id credential_id) s.credentials;
    },
  )

  unfoldable pub get_trusted_device : String → String → Action (Option TrustedDevice)
  get_trusted_device user_id fingerprint s =
      (ok (db.find_first TrustedDevice (own_device user_id fingerprint) s.trusted_devices), s)

  unfoldable pub touch_trusted_device : String → String → Action (Unit {0})
  touch_trusted_device user_id fingerprint s =
      elim (db.update TrustedDevice (own_device user_id fingerprint)
        (λ d. record d { last_used_at = s.now }) s.trusted_devices) [
          | none ↦ (err record_missing, s)
          | some (d, t) ↦ (ok tt, record s { trusted_devices = t })
        ]

  -- upsert
  unfoldable pub trust_device : TrustedDevice → Action (Unit {0})
  trust_device new s =
      elim (db.update TrustedDevice (own_device new.user_id new.device_fingerprint)
        (λ d. record d { last_used_at = s.now }) s.trusted_devices) [
          | some (d, t) ↦ (ok tt, record s { trusted_devices = t })
          | none ↦
              elim (db.create TrustedDevice (own_device new.user_id new.device_fingerprint)
                (record new { trusted_at = s.now; last_used_at = s.now }) s.trusted_devices) [
                  | none ↦ (err unique_violation, s)
                  | some t ↦ (ok tt, record s { trusted_devices = t })
                ]
        ]

  unfoldable pub list_trusted_devices : String → Action (List TrustedDevice)
  list_trusted_devices user_id s =
      (ok (db.find_many TrustedDevice (λ d. d.trusted_at) (device_of user_id) s.trusted_devices), s)

  unfoldable pub revoke_trusted_device : String → String → Action (Unit {0})
  revoke_trusted_device user_id device_id s = (
    ok tt,
    record s {
      trusted_devices =
          db.delete_many TrustedDevice (λ d. (d.user_id == user_id) && (d.id == device_id))
            s.trusted_devices;
    },
  )

  unfoldable pub revoke_all_trusted_devices : String → Action (Unit {0})
  revoke_all_trusted_devices user_id s = (
    ok tt,
    record s {
      trusted_devices = db.delete_many TrustedDevice (device_of user_id) s.trusted_devices;
    },
  )
