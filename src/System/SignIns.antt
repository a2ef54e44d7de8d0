-- ===== src/System/SignIns.antt =====
-- The services of accounts and sessions keep the session ids unique.
use secure_auth_x_pro.Prelude.{
  List, ℕ, ◌+◌, ◌||◌, leb, get_or, Bool, not, String, inl, inr, Option-cases,
}
use secure_auth_x_pro.Schema.{Session, Store, User, UserStatus, same_status}
use secure_auth_x_pro.Prisma.{Prisma, IsPrisma}
use secure_auth_x_pro.World.{World}
use secure_auth_x_pro.Http.{RequestContext}
use secure_auth_x_pro.Repositories.Users
use secure_auth_x_pro.Repositories.Users.{lock_pending}
use secure_auth_x_pro.Jwt.{verify_password}
use secure_auth_x_pro.Auth.Tokens.{Device, issue_tokens}
use secure_auth_x_pro.Auth.Login.{
  LoginInput, refuse_locked, check_lock, refuse_unverified, check_verified, fail_password,
  check_password, sign_in, challenge_second_factor, finish_password, login_user, login_unknown,
  login,
}
use secure_auth_x_pro.System.Kept.{
  IsStable, Kept, stays, then-Kept, if-Kept, require-Kept, when-Kept,
}
use secure_auth_x_pro.System.Writes.{log-Kept, event-Kept, update_user-Kept, create_session-Kept}
use secure_auth_x_pro.System.Challenges.{issue_challenge-Kept, device_trusted-Kept}

module _ {P : List Session → Type 0} (stable : IsStable P) {db : Prisma} (laws : IsPrisma db)
    (w : World) where
  refuse_locked-Kept :
      (A : Type 0) (user : User) (req : RequestContext) (now : ℕ) (s : Store)
      → P s.sessions
      → Kept P {A = A} (refuse_locked db w user req now s)
  unfolding refuse_locked
  refuse_locked-Kept A user req now s i =
      then-Kept _ _ _ (log-Kept stable laws _ _ _ _ _ s i) (λ _ t j. stays _ _ j)

  check_lock-Kept :
      (user : User) (req : RequestContext) (s : Store)
      → P s.sessions
      → Kept P (check_lock db w user req s)
  unfolding check_lock Users.unlock
  check_lock-Kept user req s i =
      if-Kept (same_status user.status UserStatus.locked) _ _ s i
        (λ t j.
          if-Kept (lock_pending user.locked_until t.now) _ _ t j (refuse_locked-Kept _ user req _)
            (λ t j. then-Kept _ _ _ (update_user-Kept stable laws _ _ t j) (λ _ t j. stays _ _ j)))
        (λ t j. stays _ _ j)

  refuse_unverified-Kept :
      (A : Type 0) (user : User) (req : RequestContext) (s : Store)
      → P s.sessions
      → Kept P {A = A} (refuse_unverified db w user req s)
  unfolding refuse_unverified
  refuse_unverified-Kept A user req s i =
      then-Kept _ _ _ (log-Kept stable laws _ _ _ _ _ s i) (λ _ t j. stays _ _ j)

  check_verified-Kept :
      (user : User) (req : RequestContext) (s : Store)
      → P s.sessions
      → Kept P (check_verified db w user req s)
  unfolding check_verified
  check_verified-Kept user req s i =
      if-Kept (not user.email_verified || same_status user.status UserStatus.pending_verification) _
        _ s i (refuse_unverified-Kept _ user req) (λ t j. stays _ _ j)

  fail_password-Kept :
      (A : Type 0) (user : User) (req : RequestContext) (s : Store)
      → P s.sessions
      → Kept P {A = A} (fail_password db w user req s)
  unfolding fail_password Users.record_failed_login
  fail_password-Kept A user req s i =
      then-Kept _ _ _ (update_user-Kept stable laws _ _ s i) (λ _ t j.
        then-Kept _ _ _ (log-Kept stable laws _ _ _ _ _ t j) (λ _ t j.
          then-Kept _ _ _
            (when-Kept (leb w.login_max_attempts (user.failed_login_attempts + 1)) _ t j (λ t j.
              then-Kept _ _ _ (log-Kept stable laws _ _ _ _ _ t j)
                (λ _ t j. event-Kept stable laws _ _ _ _ _ t j)))
            (λ _ t j. stays _ _ j)))

  check_password-Kept :
      (user : User) (password : String) (req : RequestContext) (s : Store)
      → P s.sessions
      → Kept P (check_password db w user password req s)
  unfolding check_password
  check_password-Kept user password req s i =
      if-Kept (verify_password w password (get_or user.password_hash "")) _ _ s i
        (λ t j. stays _ _ j) (fail_password-Kept _ user req)

  pub issue_tokens-Kept :
      (user : User) (device : Device) (remember_me : Bool) (s : Store)
      → P s.sessions
      → Kept P (issue_tokens db w user device remember_me s)
  unfolding issue_tokens
  issue_tokens-Kept user device remember_me s i =
      then-Kept _ _ _ (create_session-Kept stable laws _ _ i) (λ _ t j. stays _ _ j)

  sign_in-Kept :
      (user : User) (remember_me : Bool) (req : RequestContext) (s : Store)
      → P s.sessions
      → Kept P (sign_in db w user remember_me req s)
  unfolding sign_in
  sign_in-Kept user remember_me req s i =
      then-Kept _ _ _ (issue_tokens-Kept user _ remember_me s i)
        (λ _ t j. then-Kept _ _ _ (log-Kept stable laws _ _ _ _ _ t j) (λ _ t j. stays _ _ j))

  challenge-Kept :
      (user : User) (remember_me : Bool) (req : RequestContext) (s : Store)
      → P s.sessions
      → Kept P (challenge_second_factor db w user remember_me req s)
  unfolding challenge_second_factor
  challenge-Kept user remember_me req s i =
      then-Kept _ _ _ (issue_challenge-Kept stable laws w _ remember_me s i)
        (λ _ t j. then-Kept _ _ _ (log-Kept stable laws _ _ _ _ _ t j) (λ _ t j. stays _ _ j))

  finish_password-Kept :
      (user : User) (remember_me : Bool) (req : RequestContext) (s : Store)
      → P s.sessions
      → Kept P (finish_password db w user remember_me req s)
  unfolding finish_password
  finish_password-Kept user remember_me req s i =
      if-Kept user.mfa_enabled _ _ s i
        (λ t j. then-Kept _ _ _ (device_trusted-Kept stable laws w _ req t j) (λ trusted t j.
          if-Kept trusted _ _ t j (sign_in-Kept user remember_me req)
            (challenge-Kept user remember_me req)))
        (sign_in-Kept user remember_me req)

  login_user-Kept :
      (user : User) (input : LoginInput) (req : RequestContext) (s : Store)
      → P s.sessions
      → Kept P (login_user db w user input req s)
  unfolding login_user Users.mark_login_success
  login_user-Kept user input req s i =
      then-Kept _ _ _ (require-Kept (not (same_status user.status UserStatus.disabled)) _ s i)
        (λ _ t j. then-Kept _ _ _ (check_lock-Kept user req t j) (λ _ t j.
          then-Kept _ _ _ (check_verified-Kept user req t j) (λ _ t j.
            then-Kept _ _ _ (check_password-Kept user _ req t j) (λ _ t j.
              then-Kept _ _ _ (update_user-Kept stable laws _ _ t j)
                (λ _ t j. finish_password-Kept user _ req t j)))))

  login_unknown-Kept :
      (email : String) (req : RequestContext) (s : Store)
      → P s.sessions
      → Kept P (login_unknown db w email req s)
  unfolding login_unknown
  login_unknown-Kept email req s i =
      then-Kept _ _ _ (log-Kept stable laws _ _ _ _ _ s i) (λ _ t j. stays _ _ j)

  pub login-Kept :
      (input : LoginInput) (req : RequestContext) (s : Store)
      → P s.sessions
      → Kept P (login db w input req s)
  unfolding login Users.find_by_email
  login-Kept input req s i =
      elim (Option-cases (db.find_first User (Users.with_email input.email) s.users)) [
        | inl e ↦ rw (login, Users.find_by_email, e) (login_unknown-Kept input.email req s i)
        | inr (user, e) ↦ rw (login, Users.find_by_email, e) (login_user-Kept user input req s i)
      ]
