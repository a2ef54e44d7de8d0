-- ===== src/Examples/Settings.antt =====
-- Disabling MFA for the example account, which has a TOTP secret and one recovery code.
use secure_auth_x_pro.Prelude.{◌≡◌, ◌⊎◌, true, false, some, none, get_or}
use secure_auth_x_pro.Prisma.{reference, reference-IsPrisma}
use secure_auth_x_pro.Prisma.Table
use secure_auth_x_pro.Schema.{User}
use secure_auth_x_pro.Exec.{ok, err}
use secure_auth_x_pro.Jwt.{verify_password}
use secure_auth_x_pro.Repositories.Users.{with_id}
use secure_auth_x_pro.Mfa.Settings.{disable}
use secure_auth_x_pro.Mfa.Settings.Disabling.{
  HasNoFactor, user_missing, incorrect_password, disable-HasNoFactor,
}
use secure_auth_x_pro.Examples.{world, request}
use secure_auth_x_pro.Examples.SecondFactor.{mfa_store}

disable-HasNoFactor_example :
    ((Table.find_first (with_id "u1") mfa_store.users ≡ none)
      × (disable reference world "u1" "correct horse" request mfa_store
          ≡ (err user_missing, mfa_store)))
    ⊎ ((user : User) × (Table.find_first (with_id "u1") mfa_store.users ≡ some user)
        × (((verify_password world "correct horse" (get_or user.password_hash "") ≡ false)
              × (disable reference world "u1" "correct horse" request mfa_store
                  ≡ (err incorrect_password, mfa_store)))
            ⊎ ((verify_password world "correct horse" (get_or user.password_hash "") ≡ true)
                × ((disable reference world "u1" "correct horse" request mfa_store).0 ≡ ok tt)
                × HasNoFactor "u1" user
                    (disable reference world "u1" "correct horse" request mfa_store).1)))
disable-HasNoFactor_example =
    disable-HasNoFactor reference-IsPrisma world "u1" "correct horse" request mfa_store
