-- ===== src/Auth/Login/Admission.antt =====
-- auth.service.ts, login: what a login that returns has checked and granted.
use secure_auth_x_pro.Prelude.{◌≡◌, refl, true, get_or, inl, inr, Bool-cases, Option-cases}
use secure_auth_x_pro.Schema.{Store, User, UserStatus, same_status}
use secure_auth_x_pro.Prisma.{Prisma, IsPrisma}
use secure_auth_x_pro.Prisma.Table.{find_first}
use secure_auth_x_pro.Prisma.Rows.{Distinct}
use secure_auth_x_pro.World.{World}
use secure_auth_x_pro.Http.{RequestContext}
use secure_auth_x_pro.Exec.Inversion.{Returns, refused}
use secure_auth_x_pro.Repositories.Users.{with_email}
use secure_auth_x_pro.Jwt.{verify_password}
use secure_auth_x_pro.Auth.Responses.{LoginResponse}
use secure_auth_x_pro.Auth.Login.{LoginInput, login}
use secure_auth_x_pro.Auth.Login.Branches
use secure_auth_x_pro.Auth.Login.Grants
use secure_auth_x_pro.Auth.Login.Branches.{
  user_id, after_lock, is_blocked, unverified, ReachesPassword,
}

module _ {db : Prisma} (laws : IsPrisma db) (w : World) where
  -- A login that returned has the account, in a state that may sign in, and its password.
  passed :
      (input : LoginInput) (req : RequestContext) (s : Store)
      → Distinct user_id s.users
      → {r : LoginResponse} {t : Store} → Returns (login db w input req) s r t
      → (user : User) × ReachesPassword input s user
        × (verify_password w input.password (get_or user.password_hash "") ≡ true)
  passed input req s d ran = elim (Option-cases (find_first (with_email input.email) s.users)) [
    | inl unknown ↦ absurd (refused (Branches.login_unknown_runs laws w input req s unknown) ran)
    | inr (user, found) ↦ elim (Bool-cases (same_status user.status UserStatus.disabled)) [
      | inl disabled ↦
          absurd (refused (Branches.login_disabled_runs laws w input req s found disabled) ran)
      | inr enabled ↦ elim (Bool-cases (is_blocked user s.now)) [
        | inl blocked ↦
            absurd
              (refused (Branches.login_blocked_runs laws w input req s found enabled blocked) ran)
        | inr free ↦ elim (Bool-cases (unverified user)) [
          | inl open_ ↦ absurd (
              refused (Branches.login-unverified_runs laws w input req s d found enabled free open_)
                ran)
          | inr verified ↦
              let h : ReachesPassword input s user = record {
                distinct = d;
                found = found;
                enabled = enabled;
                free = free;
                is_verified = verified;
              } in
              elim (Bool-cases (verify_password w input.password (get_or user.password_hash ""))) [
                | inl right ↦ (user, h, right)
                | inr wrong ↦
                    absurd (refused (Branches.login_failed_runs laws w input req s h wrong) ran)
              ]
        ]
      ]
    ]
  ]

  after_lock_keeps :
      (user : User) (s : Store)
      → ((after_lock user s).sessions ≡ s.sessions)
        × ((after_lock user s).trusted_devices ≡ s.trusted_devices)
  after_lock_keeps user s = elim (Bool-cases (same_status user.status UserStatus.locked)) [
    | inl locked ↦ rw locked (refl, refl)
    | inr not_locked ↦ rw not_locked (refl, refl)
  ]

  -- A login that returns was for an account that exists, is not disabled, has no lock in force and
  -- is verified, with its password. If it signed in, MFA is off for the account or the request
  -- carries the token of a device that the account trusts, and one active session of the account
  -- was added, bound to the refresh token returned. If it asks for the second factor, MFA is on,
  -- no session was added, and the challenge returned is pending for the account.
  pub login-Grants :
      (input : LoginInput) (req : RequestContext) (s : Store)
      → Distinct user_id s.users
      → {r : LoginResponse} {t : Store} → Returns (login db w input req) s r t
      → (user : User) × ReachesPassword input s user
        × (verify_password w input.password (get_or user.password_hash "") ≡ true)
        × Grants.Grants w user req s r t
  login-Grants input req s d ran =
      let (user, h, right) = passed input req s d ran in
      let (same, devices) = after_lock_keeps user s in
      let went = rw (Branches.login_passed_runs laws w input req s h right) at ran in
      (user, h, right, Grants.finish_inv laws w user input.remember_me req s _ same devices went)
