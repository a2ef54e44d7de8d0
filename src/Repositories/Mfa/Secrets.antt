-- ===== src/Repositories/Mfa/Secrets.antt =====
-- packages/database/src/repositories/mfa.repository.ts: TOTP secrets and recovery codes.
use secure_auth_x_pro.Prelude.{
  ℕ, Bool, true, false, not, ◌&&◌, Option, none, some, List, [], ◌∷◌, String, ◌==◌, is_some, leb,
}
use secure_auth_x_pro.Schema.{TotpSecret, RecoveryCode}
use secure_auth_x_pro.Prisma.{Prisma}
use secure_auth_x_pro.Exec.{Action, record_missing, unique_violation, ok, err}

abbrev pub secret_of : String → TotpSecret → Bool
secret_of user_id x = x.user_id == user_id

abbrev pub code_of : String → RecoveryCode → Bool
code_of user_id c = c.user_id == user_id

-- `where: { userId, usedAt: null }`
abbrev pub unused_of : String → RecoveryCode → Bool
unused_of user_id c = (c.user_id == user_id) && not (is_some c.used_at)

-- `where: { userId, codeHash, usedAt: null }`
abbrev pub claimable : String → String → RecoveryCode → Bool
claimable user_id hash c =
    (c.user_id == user_id) && (c.code_hash == hash) && not (is_some c.used_at)

module _ (db : Prisma) where
  unfoldable pub get_totp_secret : String → Action (Option TotpSecret)
  get_totp_secret user_id s = (ok (db.find_first TotpSecret (secret_of user_id) s.totp_secrets), s)

  unfoldable pub write_totp_secret : String → (TotpSecret → TotpSecret) → Action (Unit {0})
  write_totp_secret user_id f s = elim (db.update TotpSecret (secret_of user_id) f s.totp_secrets) [
    | none ↦ (err record_missing, s)
    | some (x, t) ↦ (ok tt, record s { totp_secrets = t })
  ]

  unfoldable pub insert_totp_secret : TotpSecret → Action (Unit {0})
  insert_totp_secret x s = elim (db.create TotpSecret (secret_of x.user_id) x s.totp_secrets) [
    | none ↦ (err unique_violation, s)
    | some t ↦ (ok tt, record s { totp_secrets = t })
  ]

  unfoldable pub upsert_pending_totp_secret : String → String → Action (Unit {0})
  unfolding write_totp_secret insert_totp_secret
  upsert_pending_totp_secret user_id encrypted s =
      elim (db.find_first TotpSecret (secret_of user_id) s.totp_secrets) [
        | none ↦
            insert_totp_secret
              (record { user_id = user_id; secret = encrypted; verified = false; enabled = false })
              s
        | some _ ↦
            write_totp_secret user_id
              (λ x. record x { secret = encrypted; verified = false; enabled = false }) s
      ]

  unfoldable pub verify_totp_secret : String → Action (Unit {0})
  unfolding write_totp_secret
  verify_totp_secret user_id = write_totp_secret user_id (λ x. record x { verified = true })

  unfoldable pub enable_totp : String → Action (Unit {0})
  unfolding write_totp_secret
  enable_totp user_id =
      write_totp_secret user_id (λ x. record x { verified = true; enabled = true })

  unfoldable pub delete_totp_secret : String → Action (Unit {0})
  delete_totp_secret user_id s = (
    ok tt,
    record s { totp_secrets = db.delete_many TotpSecret (secret_of user_id) s.totp_secrets },
  )

  unfoldable pub insert_codes :
      String → List String → List RecoveryCode → Option (List RecoveryCode)
  insert_codes user_id [] t = some t
  insert_codes user_id (hash ∷ hashes) t =
      elim (db.create RecoveryCode (λ c. c.code_hash == hash)
        (record { user_id = user_id; code_hash = hash; used_at = none }) t) [
          | none ↦ none
          | some t' ↦ insert_codes user_id hashes t'
        ]

  -- createMany: all the rows, or none and an exception.
  unfoldable pub create_recovery_codes : String → List String → Action (Unit {0})
  unfolding insert_codes
  create_recovery_codes user_id hashes s = elim (insert_codes user_id hashes s.recovery_codes) [
    | none ↦ (err unique_violation, s)
    | some t ↦ (ok tt, record s { recovery_codes = t })
  ]

  -- `result.count === 1`
  unfoldable pub consume_recovery_code : String → String → Action Bool
  consume_recovery_code user_id hash s =
      let (n, t) =
        db.update_many RecoveryCode (claimable user_id hash)
          (λ c. record c { used_at = some s.now }) s.recovery_codes in
      (ok (leb 1 n && leb n 1), record s { recovery_codes = t })

  unfoldable pub count_unused_recovery_codes : String → Action ℕ
  count_unused_recovery_codes user_id s =
      (ok (db.count RecoveryCode (unused_of user_id) s.recovery_codes), s)

  unfoldable pub delete_recovery_codes : String → Action (Unit {0})
  delete_recovery_codes user_id s = (
    ok tt,
    record s { recovery_codes = db.delete_many RecoveryCode (code_of user_id) s.recovery_codes },
  )
