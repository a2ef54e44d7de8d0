-- ===== src/Auth/Login/Attempts.antt =====
-- auth.service.ts, login: counting wrong passwords.
use secure_auth_x_pro.Prelude.{
  ℕ, zero, suc, ◌+◌, ◌*◌, ◌<◌, ◌≤◌, ◌≡◌, refl, ap, subst, true, false, none, some, String, get_or,
  arith, Bool-cases, inl, inr,
}
use secure_auth_x_pro.Schema.{Store, User, UserStatus}
use secure_auth_x_pro.Prisma.{Prisma, IsPrisma}
use secure_auth_x_pro.Prisma.Table.{find_first}
use secure_auth_x_pro.Prisma.Rows.{Distinct}
use secure_auth_x_pro.World.{World}
use secure_auth_x_pro.Http.{RequestContext}
use secure_auth_x_pro.Repositories.Users.{with_email}
use secure_auth_x_pro.Jwt.{verify_password}
use secure_auth_x_pro.Auth.Login.{LoginInput, login}
use secure_auth_x_pro.Auth.Login.Branches
use secure_auth_x_pro.Auth.Login.Branches.{
  user_id, after_failure, failed, locks_now, ReachesPassword,
}
use secure_auth_x_pro.Auth.Login.Lockout.{row_after_failure}

module _ (db : Prisma) (w : World) (input : LoginInput) (req : RequestContext) where
  -- The store after `n` logins with the same input.
  unfoldable pub tries : ℕ → Store → Store
  tries zero s = s
  tries (suc n) s = (login db w input req (tries n s)).1

-- An account in use: the email is verified, and wrong passwords since the last login are counted.
abbrev pub counted : User → ℕ → User
counted user n = record user {
  status = UserStatus.active;
  email_verified = true;
  failed_login_attempts = n;
  locked_until = none;
}

-- The store finds the account `u`.
pub record Finds (email : String) (u : User) (now : ℕ) (s : Store) : Type 0 where
  pub distinct : Distinct user_id s.users
  pub found : find_first (with_email email) s.users ≡ some u
  pub at_time : s.now ≡ now

module _ {db : Prisma} (laws : IsPrisma db) (w : World) (input : LoginInput)
    (req : RequestContext) where
  reaches :
      (user : User) (n now : ℕ) (s : Store)
      → Finds input.email (counted user n) now s
      → ReachesPassword input s (counted user n)
  reaches user n now s h = record {
    distinct = h.distinct;
    found = h.found;
    enabled = refl;
    free = refl;
    is_verified = refl;
  }

  after_failure-now : (user : User) (s : Store) → (after_failure w user req s).now ≡ s.now
  after_failure-now user s = elim (Bool-cases (locks_now w user)) [
    | inl last ↦ rw last
    | inr more ↦ rw more
  ]

  one_try :
      (user : User) (n now : ℕ) (s : Store)
      → verify_password w input.password (get_or user.password_hash "") ≡ false
      → Finds input.email (counted user n) now s
      → Finds input.email
          (failed w (counted user n) now (counted user n))
          now
          (login db w input req s).1
  one_try user n now s wrong h =
      let (d, found) = row_after_failure input.email w (counted user n) req s h.distinct h.found in
      rw (Branches.login_failed_runs laws w input req s (reaches user n now s h) wrong) (record {
        distinct = d;
        found =
            subst
              (λ x.
                find_first (with_email input.email)
                  (after_failure w (counted user n) req
                    (Branches.after_lock (counted user n) s)).users
                ≡ some (failed w (counted user n) x (counted user n)))
              h.at_time found;
        at_time = rw (after_failure-now (counted user n) s) h.at_time;
      })

  failed_open :
      (user : User) (n now : ℕ)
      → locks_now w (counted user n) ≡ false
      → failed w (counted user n) now (counted user n) ≡ counted user (suc n)
  failed_open user n now more = rw more (ap (λ k. counted user k) (omega arith))

  failed_last :
      (user : User) (n now : ℕ)
      → locks_now w (counted user n) ≡ true
      → failed w (counted user n) now (counted user n) ≡ record (counted user (suc n)) {
        status = UserStatus.locked;
        locked_until = some (now + w.login_lockout_minutes * 60000);
      }
  failed_last user n now last = rw last (
      ap
        (λ k. record (counted user k) {
          status = UserStatus.locked;
          locked_until = some (now + w.login_lockout_minutes * 60000);
        })
        (omega arith))

  below :
      (user : User) (now : ℕ) (s : Store)
      → verify_password w input.password (get_or user.password_hash "") ≡ false
      → Finds input.email (counted user 0) now s
      → (n : ℕ) → n < w.login_max_attempts
      → Finds input.email (counted user n) now (tries db w input req n s)
  unfolding tries
  below user now s wrong h zero lt = h
  below user now s wrong h (suc n) lt =
      let more : locks_now w (counted user n) ≡ false = ground arith in
      rw (failed_open user n now more) at (
        one_try user n now (tries db w input req n s) wrong
          (below user now s wrong h n (omega arith)))

  -- Wrong passwords are counted one by one. Here the account starts in use with none counted, and
  -- `n + 1` is `LOGIN_MAX_ATTEMPTS`: after any `k` up to `n` wrong passwords the account is in use with
  -- that count, and the one after `n` locks it for the lockout time.
  pub tries-counts :
      (user : User) (now : ℕ) (s : Store)
      → verify_password w input.password (get_or user.password_hash "") ≡ false
      → Finds input.email (counted user 0) now s
      → (n k : ℕ) → suc n ≡ w.login_max_attempts
      → k ≤ n
      → Finds input.email (counted user k) now (tries db w input req k s)
        × Finds input.email
            (record (counted user (suc n)) {
              status = UserStatus.locked;
              locked_until = some (now + w.login_lockout_minutes * 60000);
            })
            now
            (tries db w input req (suc n) s)
  unfolding tries
  tries-counts user now s wrong h n k last_one early =
      let last : locks_now w (counted user n) ≡ true = ground arith in
      (
        below user now s wrong h k (omega arith),
        rw (failed_last user n now last) at (
            one_try user n now (tries db w input req n s) wrong
              (below user now s wrong h n (omega arith))),
      )
