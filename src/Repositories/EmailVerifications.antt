-- ===== src/Repositories/EmailVerifications.antt =====
-- packages/database/src/repositories/email-verification.repository.ts
use secure_auth_x_pro.Prelude.{Bool, not, ◌&&◌, ◌||◌, Option, none, some, String, ◌==◌, is_some}
use secure_auth_x_pro.Schema.{EmailVerification, User}
use secure_auth_x_pro.Prisma.{Prisma}
use secure_auth_x_pro.Exec.{Action, record_missing, unique_violation, ok, err}
use secure_auth_x_pro.Repositories.Users.{with_id as user_with_id}

abbrev pub with_hash : String → EmailVerification → Bool
with_hash hash v = v.token_hash == hash

abbrev pub with_id : String → EmailVerification → Bool
with_id id v = v.id == id

abbrev pub is_pending : String → EmailVerification → Bool
is_pending user_id v = (v.user_id == user_id) && not (is_some v.used_at)

abbrev pub clashes : EmailVerification → EmailVerification → Bool
clashes new v = (v.id == new.id) || (v.token_hash == new.token_hash)

module _ (db : Prisma) where
  unfoldable pub create : EmailVerification → Action (Unit {0})
  create input s = elim (db.create EmailVerification (clashes input) input s.email_verifications) [
    | none ↦ (err unique_violation, s)
    | some t ↦ (ok tt, record s { email_verifications = t })
  ]

  abbrev include_user : Option EmailVerification → Option User → Option (EmailVerification × User)
  include_user (some v) (some u) = some (v, u)
  include_user _ _ = none

  abbrev owner_of : Option EmailVerification → String
  owner_of none = ""
  owner_of (some v) = v.user_id

  -- Despite the name, used and expired tokens are found too.
  unfoldable pub find_active_by_hash : String → Action (Option (EmailVerification × User))
  find_active_by_hash hash s =
      let v = db.find_first EmailVerification (with_hash hash) s.email_verifications in
      (ok (include_user v (db.find_first User (user_with_id (owner_of v)) s.users)), s)

  unfoldable pub mark_used : String → Action (Unit {0})
  mark_used id s =
      elim (db.update EmailVerification (with_id id) (λ v. record v { used_at = some s.now })
        s.email_verifications) [
          | none ↦ (err record_missing, s)
          | some (v, t) ↦ (ok tt, record s { email_verifications = t })
        ]

  unfoldable pub revoke_pending : String → Action (Unit {0})
  revoke_pending user_id s =
      let (n, t) =
        db.update_many EmailVerification (is_pending user_id)
          (λ v. record v { used_at = some s.now }) s.email_verifications in
      (ok tt, record s { email_verifications = t })
