-- ===== src/System/Registration.antt =====
-- Registering and confirming an email keep the session ids unique.
use secure_auth_x_pro.Prelude.{List, not, String, inl, inr, Option-cases}
use secure_auth_x_pro.Schema.{Session, Store, User, EmailVerification}
use secure_auth_x_pro.Prisma.{Prisma, IsPrisma}
use secure_auth_x_pro.World.{World}
use secure_auth_x_pro.Http.{RequestContext}
use secure_auth_x_pro.Repositories.Users
use secure_auth_x_pro.Repositories.EmailVerifications
use secure_auth_x_pro.Auth.Registration.{
  RegisterInput, Mode, issue_verification_token, register_existing, register_new, register,
  verify_found, verify_email, resend_verification, needs_verification, is_spent,
}
use secure_auth_x_pro.System.Kept.{
  IsStable, Kept, stays, then-Kept, if-Kept, or_throw-Kept, require-Kept, when-Kept,
}
use secure_auth_x_pro.System.Writes.{
  log-Kept, update_user-Kept, create_user-Kept, create_verification-Kept, mark_used-Kept,
  revoke_pending-Kept,
}

module _ {P : List Session → Type 0} (stable : IsStable P) {db : Prisma} (laws : IsPrisma db)
    (w : World) where
  issue-Kept :
      (user_id email : String) (req : RequestContext) (mode : Mode) (s : Store)
      → P s.sessions
      → Kept P (issue_verification_token db w user_id email req mode s)
  unfolding issue_verification_token
  issue-Kept user_id email req mode s i =
      then-Kept _ _ _ (revoke_pending-Kept stable laws user_id s i) (λ _ t j.
        then-Kept _ _ _ (create_verification-Kept stable laws _ _ j)
          (λ _ t j. log-Kept stable laws _ _ _ _ _ _ j))

  existing-Kept :
      (user : User) (input : RegisterInput) (req : RequestContext) (s : Store)
      → P s.sessions
      → Kept P (register_existing db w user input req s)
  unfolding register_existing
  existing-Kept user input req s i =
      then-Kept _ _ _
        (when-Kept (not user.email_verified) _ s i (issue-Kept user.id user.email req _))
        (λ _ t j. then-Kept _ _ _ (log-Kept stable laws _ _ _ _ _ t j) (λ _ t j. stays _ _ j))

  new-Kept :
      (input : RegisterInput) (req : RequestContext) (s : Store)
      → P s.sessions
      → Kept P (register_new db w input req s)
  unfolding register_new
  new-Kept input req s i = then-Kept _ _ _ (create_user-Kept stable laws _ _ i) (λ user t j.
      then-Kept _ _ _ (log-Kept stable laws _ _ _ _ _ t j)
        (λ _ t j. then-Kept _ _ _ (issue-Kept user.id user.email req _ t j) (λ _ t j. stays _ _ j)))

  pub register-Kept :
      (input : RegisterInput) (req : RequestContext) (s : Store)
      → P s.sessions
      → Kept P (register db w input req s)
  unfolding register Users.find_by_email
  register-Kept input req s i =
      elim (Option-cases (db.find_first User (Users.with_email input.email) s.users)) [
        | inl e ↦ rw (register, Users.find_by_email, e) (new-Kept input req s i)
        | inr (user, e) ↦ rw (register, Users.find_by_email, e) (existing-Kept user input req s i)
      ]

  verify_found-Kept :
      (v : EmailVerification) (user : User) (req : RequestContext) (s : Store)
      → P s.sessions
      → Kept P (verify_found db w v user req s)
  unfolding verify_found Users.mark_email_verified
  verify_found-Kept v user req s i =
      if-Kept user.email_verified _ _ s i
        (λ t j. then-Kept _ _ _ (mark_used-Kept stable laws v.id t j) (λ _ t j. stays _ _ j))
        (λ t j. then-Kept _ _ _ (require-Kept (not (is_spent v t.now)) _ t j) (λ _ t j.
          then-Kept _ _ _ (mark_used-Kept stable laws v.id t j) (λ _ t j.
            then-Kept _ _ _ (update_user-Kept stable laws _ _ t j) (λ _ t j.
              then-Kept _ _ _ (log-Kept stable laws _ _ _ _ _ t j) (λ _ t j. stays _ _ j)))))

  find_token-Kept :
      (hash : String) (s : Store)
      → P s.sessions
      → Kept P (EmailVerifications.find_active_by_hash db hash s)
  unfolding EmailVerifications.find_active_by_hash
  find_token-Kept hash s i = stays _ _ i

  pub verify_email-Kept :
      (token : String) (req : RequestContext) (s : Store)
      → P s.sessions
      → Kept P (verify_email db w token req s)
  unfolding verify_email
  verify_email-Kept token req s i =
      then-Kept _ _ _ (find_token-Kept (w.sha256 token) s i) (λ found t j.
        then-Kept _ _ _ (or_throw-Kept found _ t j)
          (λ (v, user) t j. verify_found-Kept v user req t j))

  pub resend-Kept :
      (email : String) (req : RequestContext) (s : Store)
      → P s.sessions
      → Kept P (resend_verification db w email req s)
  unfolding resend_verification Users.find_by_email
  resend-Kept email req s i =
      elim (Option-cases
        (needs_verification db w (db.find_first User (Users.with_email email) s.users))) [
          | inl e ↦ rw (resend_verification, Users.find_by_email, e) (stays _ _ i)
          | inr (user, e) ↦
              rw (resend_verification, Users.find_by_email, e)
                (then-Kept _ _ _ (issue-Kept user.id user.email req _ s i) (λ _ t j. stays _ _ j))
        ]
