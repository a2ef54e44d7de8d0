-- ===== src/Auth/Login/Branches/Checks.antt =====
-- auth.service.ts, login: the checks of the account, its lock and the password, each as an equation.
use secure_auth_x_pro.Prelude.{
  ℕ, ◌+◌, ◌*◌, ◌≡◌, Bool, true, false, not, ◌||◌, Option, none, some, [], ◌∷◌, String, leb, get_or,
  is_some, Bool-cases, inl, inr, if◌then◌else◌,
}
use secure_auth_x_pro.Schema.{
  Store, User, UserStatus, same_status, warn, critical, text, number, flag,
}
use secure_auth_x_pro.Prisma.{Prisma, IsPrisma}
use secure_auth_x_pro.Prisma.Table.{find_first}
use secure_auth_x_pro.World.{World}
use secure_auth_x_pro.Http.{RequestContext}
use secure_auth_x_pro.Exec.{app, ok, err}
use secure_auth_x_pro.Repositories.Users
use secure_auth_x_pro.Repositories.Users.{lock_pending, with_email, with_id}
use secure_auth_x_pro.Repositories.Effects
use secure_auth_x_pro.Repositories.Effects.{logged, noted, user_written}
use secure_auth_x_pro.Jwt.{verify_password}
use secure_auth_x_pro.Auth.Login.{
  LoginInput, login, login_unknown, check_lock, refuse_locked, check_verified, refuse_unverified,
  check_password, fail_password, invalid_credentials, account_locked, email_not_verified,
  retry_after,
}

abbrev pub user_id : User → String
user_id u = u.id

-- The account refuses every password for now.
abbrev pub is_blocked : User → ℕ → Bool
is_blocked user now =
    if same_status user.status UserStatus.locked then lock_pending user.locked_until now else false

abbrev pub unverified : User → Bool
unverified user = not user.email_verified || same_status user.status UserStatus.pending_verification

abbrev pub unlocked : User → User
unlocked u = record u { status = UserStatus.active; locked_until = none; failed_login_attempts = 0 }

-- A lock whose time is over is taken off before the password is looked at.
abbrev pub after_lock : User → Store → Store
after_lock user s =
    if same_status user.status UserStatus.locked then user_written user.id unlocked s else s

abbrev pub reason : String → User → RequestContext → Store → Store
reason why user req s =
    logged (some user.id) "auth.login_failed" warn req (("reason", text why) ∷ []) s

module _ (w : World) where
  abbrev pub locks_now : User → Bool
  locks_now user = leb w.login_max_attempts (user.failed_login_attempts + 1)

  abbrev pub locks_until : User → ℕ → Option ℕ
  locks_until user now =
      if locks_now user then some (now + w.login_lockout_minutes * 60000) else none

  -- The row after a wrong password at a time.
  abbrev pub failed : User → ℕ → User → User
  failed user now u = record u {
    failed_login_attempts = user.failed_login_attempts + 1;
    locked_until = locks_until user now;
    status = if is_some (locks_until user now) then UserStatus.locked else u.status;
  }

  -- What a wrong password leaves: the row, and the log.
  abbrev pub after_failure : User → RequestContext → Store → Store
  after_failure user req s =
      let t =
        logged (some user.id) "auth.login_failed" warn req
          (("attempts", number (user.failed_login_attempts + 1))
            ∷ ("willLock", flag (locks_now user))
            ∷ [])
          (user_written user.id (failed user s.now) s) in
      if locks_now user
      then noted (some user.id) "account_locked" critical req
          (("attempts", number (user.failed_login_attempts + 1)) ∷ [])
          (logged (some user.id) "auth.login_locked" critical req [] t)
      else t

contradicts : false ≡ true → ⊥
contradicts h = cc

module _ {db : Prisma} (laws : IsPrisma db) (w : World) where
  pub login_unknown_runs :
      (input : LoginInput) (req : RequestContext) (s : Store)
      → find_first (with_email input.email) s.users ≡ none
      → login db w input req s ≡ (
        err invalid_credentials,
        logged none "auth.login_failed" warn req
            (("email", text input.email) ∷ ("reason", text "unknown_user") ∷ [])
            s,
      )
  unfolding login login_unknown
  login_unknown_runs input req s absent =
      rw (login, Effects.find_by_email_runs laws, absent, login_unknown, Effects.log_runs laws)

  pub check_lock_blocks :
      (user : User) (req : RequestContext) (s : Store)
      → is_blocked user s.now ≡ true
      → check_lock db w user req s ≡ (
        err (app (account_locked (retry_after (get_or user.locked_until 0) s.now))),
        reason "account_locked" user req s,
      )
  unfolding check_lock refuse_locked
  check_lock_blocks user req s blocked =
      elim (Bool-cases (same_status user.status UserStatus.locked)) [
        | inl locked ↦
            rw (check_lock, locked, rw locked at blocked, refuse_locked, Effects.log_runs laws)
        | inr not_locked ↦ absurd (contradicts (rw not_locked at blocked))
      ]

  pub check_lock_passes :
      (user : User) (req : RequestContext) (s : Store)
      → find_first (with_id user.id) s.users ≡ some user
      → is_blocked user s.now ≡ false
      → check_lock db w user req s ≡ (ok tt, after_lock user s)
  unfolding check_lock Users.unlock
  check_lock_passes user req s found free =
      elim (Bool-cases (same_status user.status UserStatus.locked)) [
        | inl locked ↦ rw (
          check_lock,
          locked,
          rw locked at free,
          Users.unlock,
          Effects.update_user_runs laws user.id unlocked s found,
        )
        | inr not_locked ↦ rw (check_lock, not_locked)
      ]

  pub check_verified_refuses :
      (user : User) (req : RequestContext) (s : Store)
      → unverified user ≡ true
      → check_verified db w user req s
        ≡ (err (app email_not_verified), reason "email_not_verified" user req s)
  unfolding check_verified refuse_unverified
  check_verified_refuses user req s h =
      rw (check_verified, h, refuse_unverified, Effects.log_runs laws)

  pub check_password_fails :
      (user : User) (password : String) (req : RequestContext) (s : Store) {u : User}
      → find_first (with_id user.id) s.users ≡ some u
      → verify_password w password (get_or user.password_hash "") ≡ false
      → check_password db w user password req s
        ≡ (err invalid_credentials, after_failure w user req s)
  unfolding check_password fail_password Users.record_failed_login
  check_password_fails user password req s found wrong = elim (Bool-cases (locks_now w user)) [
    | inl last ↦ rw (
      check_password,
      wrong,
      fail_password,
      Users.record_failed_login,
      Effects.update_user_runs laws user.id (failed w user s.now) s found,
      Effects.log_runs laws,
      last,
      Effects.log_runs laws,
      Effects.event_runs laws,
    )
    | inr more ↦ rw (
      check_password,
      wrong,
      fail_password,
      Users.record_failed_login,
      Effects.update_user_runs laws user.id (failed w user s.now) s found,
      Effects.log_runs laws,
      more,
    )
  ]
