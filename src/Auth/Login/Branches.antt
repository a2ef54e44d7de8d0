-- ===== src/Auth/Login/Branches.antt =====
-- auth.service.ts, login: what each of its branches returns and leaves, over a client that answers
-- as documented.
mod Checks
pub use Checks.*
use secure_auth_x_pro.Prelude.{
  ℕ, ◌+◌, ◌*◌, ◌≡◌, refl, Bool, true, false, not, ◌||◌, Option, none, some, [], ◌∷◌, String, leb,
  get_or, is_some, eq_refl, Bool-cases, inl, inr, if◌then◌else◌,
}
use secure_auth_x_pro.Schema.{
  Store, User, UserStatus, same_status, warn, critical, text, number, flag,
}
use secure_auth_x_pro.Prisma.{Prisma, IsPrisma}
use secure_auth_x_pro.Prisma.Table.{find_first}
use secure_auth_x_pro.Prisma.Rows.{Distinct, find_first-key, find_first-set_first}
use secure_auth_x_pro.World.{World}
use secure_auth_x_pro.Http.{RequestContext, get_client_ip}
use secure_auth_x_pro.Exec.{app, ok, err}
use secure_auth_x_pro.Repositories.Users
use secure_auth_x_pro.Repositories.Users.{lock_pending, with_email, with_id}
use secure_auth_x_pro.Repositories.Effects
use secure_auth_x_pro.Repositories.Effects.{logged, noted, user_written}
use secure_auth_x_pro.Jwt.{verify_password}
use secure_auth_x_pro.Auth.Login.{
  LoginInput, login, login_user, login_unknown, check_lock, refuse_locked, check_verified,
  refuse_unverified, check_password, fail_password, finish_password, invalid_credentials,
  account_disabled, account_locked, email_not_verified, retry_after,
}

-- A login reaches the password check: the account exists, and is neither disabled, blocked nor
-- unverified.
pub record ReachesPassword (input : LoginInput) (s : Store) (user : User) : Type 0 where
  pub distinct : Distinct user_id s.users
  pub found : find_first (with_email input.email) s.users ≡ some user
  pub enabled : same_status user.status UserStatus.disabled ≡ false
  pub free : is_blocked user s.now ≡ false
  pub is_verified : unverified user ≡ false

module _ {db : Prisma} (laws : IsPrisma db) (w : World) where
  pub login_disabled_runs :
      (input : LoginInput) (req : RequestContext) (s : Store) {user : User}
      → find_first (with_email input.email) s.users ≡ some user
      → same_status user.status UserStatus.disabled ≡ true
      → login db w input req s ≡ (err (app account_disabled), s)
  unfolding login login_user
  login_disabled_runs input req s found disabled =
      rw (login, Effects.find_by_email_runs laws, found, login_user, disabled)

  pub login_blocked_runs :
      (input : LoginInput) (req : RequestContext) (s : Store) {user : User}
      → find_first (with_email input.email) s.users ≡ some user
      → same_status user.status UserStatus.disabled ≡ false
      → is_blocked user s.now ≡ true
      → login db w input req s ≡ (
        err (app (account_locked (retry_after (get_or user.locked_until 0) s.now))),
        reason "account_locked" user req s,
      )
  unfolding login login_user
  login_blocked_runs input req s {user} found enabled blocked = rw (
    login,
    Effects.find_by_email_runs laws,
    found,
    login_user,
    enabled,
    check_lock_blocks laws w user req s blocked,
  )

  own_row :
      (input : LoginInput) (s : Store) {user : User}
      → Distinct user_id s.users
      → find_first (with_email input.email) s.users ≡ some user
      → find_first (with_id user.id) s.users ≡ some user
  own_row input s d found = find_first-key user_id (with_email input.email) s.users d found

  pub login-unverified_runs :
      (input : LoginInput) (req : RequestContext) (s : Store) {user : User}
      → Distinct user_id s.users
      → find_first (with_email input.email) s.users ≡ some user
      → same_status user.status UserStatus.disabled ≡ false
      → is_blocked user s.now ≡ false
      → unverified user ≡ true
      → login db w input req s
        ≡ (err (app email_not_verified), reason "email_not_verified" user req (after_lock user s))
  unfolding login login_user
  login-unverified_runs input req s {user} d found enabled free h = rw (
    login,
    Effects.find_by_email_runs laws,
    found,
    login_user,
    enabled,
    check_lock_passes laws w user req s (own_row input s d found) free,
    check_verified_refuses laws w user req (after_lock user s) h,
  )

  -- The row is still there after a lapsed lock was taken off.
  after_lock_found :
      (user : User) (s : Store)
      → find_first (with_id user.id) s.users ≡ some user
      → (u : User) × (find_first (with_id user.id) (after_lock user s).users ≡ some u)
        × (u.email ≡ user.email)
  after_lock_found user s found = elim (Bool-cases (same_status user.status UserStatus.locked)) [
    | inl locked ↦ (
      unlocked user,
      rw locked (find_first-set_first (with_id user.id) unlocked s.users found (eq_refl user.id)),
      refl,
    )
    | inr not_locked ↦ (user, rw not_locked found, refl)
  ]

  pub login_failed_runs :
      (input : LoginInput) (req : RequestContext) (s : Store) {user : User}
      → ReachesPassword input s user
      → verify_password w input.password (get_or user.password_hash "") ≡ false
      → login db w input req s
        ≡ (err invalid_credentials, after_failure w user req (after_lock user s))
  unfolding login login_user check_verified
  login_failed_runs input req s {user} h wrong =
      let own = own_row input s h.distinct h.found in
      let (u, there, _) = after_lock_found user s own in
      rw (
        login,
        Effects.find_by_email_runs laws,
        h.found,
        login_user,
        h.enabled,
        check_lock_passes laws w user req s own h.free,
        check_verified,
        h.is_verified,
        check_password_fails laws w user input.password req (after_lock user s) there wrong,
      )

  abbrev pub succeeded : String → ℕ → User → User
  succeeded ip now u = record u {
    last_login_at = some now;
    last_login_ip = some ip;
    failed_login_attempts = 0;
    locked_until = none;
  }

  pub login_passed_runs :
      (input : LoginInput) (req : RequestContext) (s : Store) {user : User}
      → ReachesPassword input s user
      → verify_password w input.password (get_or user.password_hash "") ≡ true
      → login db w input req s
        ≡ finish_password db w user input.remember_me req (
            user_written user.id
              (succeeded (get_client_ip req) (after_lock user s).now)
              (after_lock user s))
  unfolding login login_user check_verified check_password Users.mark_login_success
  login_passed_runs input req s {user} h right =
      let own = own_row input s h.distinct h.found in
      let (u, there, _) = after_lock_found user s own in
      rw (
        login,
        Effects.find_by_email_runs laws,
        h.found,
        login_user,
        h.enabled,
        check_lock_passes laws w user req s own h.free,
        check_verified,
        h.is_verified,
        check_password,
        right,
        Users.mark_login_success,
        Effects.update_user_runs laws user.id
            (succeeded (get_client_ip req) (after_lock user s).now) (after_lock user s) there,
      )
