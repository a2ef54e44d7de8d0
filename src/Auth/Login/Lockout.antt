-- ===== src/Auth/Login/Lockout.antt =====
-- auth.service.ts, login: wrong passwords count up to a lock, and a lock refuses every password.
use secure_auth_x_pro.Prelude.{
  ℕ, ◌+◌, ◌*◌, ◌<◌, ◌≤◌, ◌≡◌, refl, ap, true, false, some, String, lt→ltb, get_or, Bool-cases, inl,
  inr, arith, if◌then◌else◌,
}
use secure_auth_x_pro.Schema.{Store, User, UserStatus, same_status}
use secure_auth_x_pro.Prisma.{Prisma, IsPrisma}
use secure_auth_x_pro.Prisma.Table.{find_first, set_first}
use secure_auth_x_pro.Prisma.Rows.{Distinct, find_first-rewritten, set_first-Distinct}
use secure_auth_x_pro.World.{World}
use secure_auth_x_pro.Http.{RequestContext}
use secure_auth_x_pro.Exec.{app, err}
use secure_auth_x_pro.Repositories.Users.{with_email, with_id}
use secure_auth_x_pro.Jwt.{verify_password}
use secure_auth_x_pro.Auth.Login.{
  LoginInput, login, invalid_credentials, account_locked, retry_after,
}
use secure_auth_x_pro.Auth.Login.Branches
use secure_auth_x_pro.Auth.Login.Branches.{
  user_id, after_lock, after_failure, unlocked, failed, locks_now, locks_until, ReachesPassword,
}

-- The account's row when the password is looked at: a lapsed lock was taken off.
abbrev pub row_of : User → User
row_of user = if same_status user.status UserStatus.locked then unlocked user else user

module _ (email : String) where
  after_failure-users :
      (w : World) (user : User) (req : RequestContext) (s : Store)
      → (after_failure w user req s).users
        ≡ set_first (with_id user.id) (failed w user s.now) s.users
  after_failure-users w user req s = elim (Bool-cases (locks_now w user)) [
    | inl last ↦ rw last
    | inr more ↦ rw more
  ]

  -- The row after a wrong password.
  pub row_after_failure :
      (w : World) (user : User) (req : RequestContext) (s : Store)
      → Distinct user_id s.users
      → find_first (with_email email) s.users ≡ some user
      → Distinct user_id (after_failure w user req (after_lock user s)).users
        × (find_first (with_email email) (after_failure w user req (after_lock user s)).users
            ≡ some (failed w user s.now (row_of user)))
  row_after_failure w user req s d found =
      let f = failed w user s.now in
      rw after_failure-users (elim (Bool-cases (same_status user.status UserStatus.locked)) [
        | inl locked ↦
            let d' = set_first-Distinct user_id (with_id user.id) unlocked s.users (λ x. refl) d in
            let found' =
              find_first-rewritten user_id (with_email email) unlocked s.users d (λ x. refl)
                found in
            let rows = set_first (with_id user.id) unlocked s.users in
            rw locked (
              set_first-Distinct user_id (with_id user.id) f rows (λ x. refl) d',
              find_first-rewritten user_id (with_email email) f rows d' (λ x. refl) found',
            )
        | inr not_locked ↦ rw not_locked (
          set_first-Distinct user_id (with_id user.id) f s.users (λ x. refl) d,
          find_first-rewritten user_id (with_email email) f s.users d (λ x. refl) found,
        )
      ])

failed_locked :
    (w : World) (user : User) (now : ℕ)
    → locks_now w user ≡ true
    → failed w user now (row_of user) ≡ record (row_of user) {
      failed_login_attempts = user.failed_login_attempts + 1;
      locked_until = some (now + w.login_lockout_minutes * 60000);
      status = UserStatus.locked;
    }
failed_locked w user now last = rw last

module _ {db : Prisma} (laws : IsPrisma db) (w : World) where
  -- The wrong password that makes `LOGIN_MAX_ATTEMPTS` of them answers as any wrong password, and
  -- from then until the end of the lockout time every login to the account, whatever its
  -- password, is refused as locked, with the seconds that are left. The count is the one of the
  -- row as it was read: it is also met when the account's earlier lock has lapsed.
  pub login-login_locked :
      (input : LoginInput) (req : RequestContext) (s : Store) {user : User}
      → ReachesPassword input s user
      → verify_password w input.password (get_or user.password_hash "") ≡ false
      → w.login_max_attempts ≤ user.failed_login_attempts + 1
      → (again : LoginInput) (later_req : RequestContext) (later : ℕ) → again.email ≡ input.email
      → later < s.now + w.login_lockout_minutes * 60000
      → ((login db w input req s).0 ≡ err invalid_credentials)
        × ((login db w again later_req (record (login db w input req s).1 { now = later })).0
            ≡ err (
                app (account_locked (retry_after (s.now + w.login_lockout_minutes * 60000) later))))
  login-login_locked input req s {user} h wrong enough again later_req later same soon =
      let last : locks_now w user ≡ true = ground arith in
      let (_, there) = row_after_failure input.email w user req s h.distinct h.found in
      let found = rw (failed_locked w user s.now last, ← same) at there in
      rw (Branches.login_failed_runs laws w input req s h wrong) (
        refl,
        ap (λ x. x.0)
            (Branches.login_blocked_runs laws w again later_req
              (record (after_failure w user req (after_lock user s)) { now = later }) found refl
              (lt→ltb later (s.now + w.login_lockout_minutes * 60000) soon)),
      )
