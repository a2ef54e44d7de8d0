-- ===== src/System/Accounts.antt =====
-- Refreshing, logging out, completing a login, registering, confirming an email, and the changes of
-- an administrator keep the session ids unique.
use secure_auth_x_pro.Prelude.{
  List, refl, ◌&&◌, Bool, false, not, Option, none, some, String, ◌==◌, ltb,
}
use secure_auth_x_pro.Schema.{Store, User, Session, UserStatus, UserRole, same_status, same_role}
use secure_auth_x_pro.Prisma.{Prisma, IsPrisma}
use secure_auth_x_pro.World.{World}
use secure_auth_x_pro.Http.{RequestContext, non_empty, safe_equal}
use secure_auth_x_pro.Repositories.Users
use secure_auth_x_pro.Repositories.Sessions
use secure_auth_x_pro.Jwt.{verify_refresh_token}
use secure_auth_x_pro.Auth.Refresh.{
  end_reused, check_reuse, end_expired, check_expiry, rotate, refresh,
}
use secure_auth_x_pro.Auth.Logout.{audit_logout, end_session, logout, logout_target}
use secure_auth_x_pro.Auth.Completion.{
  finish_mfa_login, complete_mfa_totp, complete_mfa_recovery, complete_webauthn_mfa,
}
use secure_auth_x_pro.Mfa.Challenges.{account_gone}
use secure_auth_x_pro.Mfa.WebAuthn.{Assertion}
use secure_auth_x_pro.Admin.{
  set_user_role, set_user_status, includes, allowed_transitions, ends_sessions,
}
use secure_auth_x_pro.System.Kept.{
  IsStable, Kept, stays, then-Kept, if-Kept, or_throw-Kept, require-Kept, when-Kept,
}
use secure_auth_x_pro.System.Writes.{
  log-Kept, event-Kept, update_user-Kept, update_session-Kept, revoke_all-Kept,
}
use secure_auth_x_pro.System.Challenges.{totp_login-Kept, recovery_login-Kept, webauthn_login-Kept}
use secure_auth_x_pro.System.SignIns.{issue_tokens-Kept}

module _ {P : List Session → Type 0} (stable : IsStable P) {db : Prisma} (laws : IsPrisma db)
    (w : World) where
  end_reused-Kept :
      (A : Type 0) (session : Session) (user : User) (req : RequestContext) (s : Store)
      → P s.sessions
      → Kept P {A = A} (end_reused db w session user req s)
  unfolding end_reused Sessions.revoke
  end_reused-Kept A session user req s i =
      then-Kept _ _ _
        (update_session-Kept stable laws _ _ s
          (record { same_id = λ x. refl; stays_over = λ x h. refl }) i)
        (λ _ t j.
          then-Kept _ _ _ (event-Kept stable laws _ _ _ _ _ t j)
            (λ _ t j. then-Kept _ _ _ (log-Kept stable laws _ _ _ _ _ t j) (λ _ t j. stays _ _ j)))

  check_reuse-Kept :
      (session : Session) (user : User) (token : String) (req : RequestContext) (s : Store)
      → P s.sessions
      → Kept P (check_reuse db w session user token req s)
  unfolding check_reuse
  check_reuse-Kept session user token req s i =
      if-Kept (safe_equal session.refresh_token_hash (w.sha256 token)) _ _ s i (λ t j. stays _ _ j)
        (end_reused-Kept _ session user req)

  end_expired-Kept :
      (A : Type 0) (session : Session) (user : User) (req : RequestContext) (s : Store)
      → P s.sessions
      → Kept P {A = A} (end_expired db w session user req s)
  unfolding end_expired Sessions.mark_expired
  end_expired-Kept A session user req s i =
      then-Kept _ _ _
        (update_session-Kept stable laws _ _ s
          (record { same_id = λ x. refl; stays_over = λ x h. refl }) i)
        (λ _ t j. then-Kept _ _ _ (log-Kept stable laws _ _ _ _ _ t j) (λ _ t j. stays _ _ j))

  check_expiry-Kept :
      (session : Session) (user : User) (req : RequestContext) (s : Store)
      → P s.sessions
      → Kept P (check_expiry db w session user req s)
  unfolding check_expiry
  check_expiry-Kept session user req s i =
      if-Kept (ltb session.expires_at s.now) _ _ s i (end_expired-Kept _ session user req)
        (λ t j. stays _ _ j)

  rotate-Kept :
      (session : Session) (user : User) (req : RequestContext) (s : Store)
      → P s.sessions
      → Kept P (rotate db w session user req s)
  unfolding rotate Sessions.rotate_token
  rotate-Kept session user req s i =
      then-Kept _ _ _
        (update_session-Kept stable laws _ _ _
          (record { same_id = λ x. refl; stays_over = λ x h. h }) i)
        (λ _ t j. then-Kept _ _ _ (log-Kept stable laws _ _ _ _ _ t j) (λ _ t j. stays _ _ j))

  find_active-Kept :
      (id : Option String) (s : Store) → P s.sessions → Kept P (Sessions.find_active_by_id db id s)
  unfolding Sessions.find_active_by_id
  find_active-Kept id s i = stays _ _ i

  pub refresh-Kept :
      (token : String) (req : RequestContext) (s : Store)
      → P s.sessions
      → Kept P (refresh db w token req s)
  unfolding refresh
  refresh-Kept token req s i =
      then-Kept _ _ _ (or_throw-Kept (verify_refresh_token w token s.now) _ s i) (λ payload t j.
        then-Kept _ _ _ (find_active-Kept payload.jti t j) (λ found t j.
          then-Kept _ _ _ (or_throw-Kept found _ t j) (λ (session, user) t j.
            then-Kept _ _ _ (check_reuse-Kept session user token req t j) (λ _ t j.
              then-Kept _ _ _ (check_expiry-Kept session user req t j) (λ _ t j.
                then-Kept _ _ _
                  (require-Kept (not (same_status user.status UserStatus.disabled)) _ t j)
                  (λ _ t j. rotate-Kept session user req t j))))))

  audit_logout-Kept :
      (user_id : Option String) (req : RequestContext) (s : Store)
      → P s.sessions
      → Kept P (audit_logout db user_id req s)
  unfolding audit_logout
  audit_logout-Kept none req s i = stays _ _ i
  audit_logout-Kept (some user_id) req s i = log-Kept stable laws _ _ _ _ _ s i

  end_session-Kept :
      (id user_id : Option String) (req : RequestContext) (s : Store)
      → P s.sessions
      → Kept P (end_session db id user_id req s)
  unfolding end_session Sessions.revoke
  end_session-Kept none user_id req s i = stays _ _ i
  end_session-Kept (some id) user_id req s i =
      then-Kept _ _ _
        (update_session-Kept stable laws _ _ s
          (record { same_id = λ x. refl; stays_over = λ x h. refl }) i)
        (λ _ t j. audit_logout-Kept (non_empty user_id) req t j)

  pub logout-Kept : (req : RequestContext) (s : Store) → P s.sessions → Kept P (logout db w req s)
  unfolding logout
  logout-Kept req s i =
      let target = logout_target w req s.now in
      then-Kept _ _ _ (end_session-Kept (non_empty target.session_id) target.user_id req s i)
        (λ _ t j. stays _ _ j)

  finish-Kept :
      (user_id : String) (req : RequestContext) (device_token : Option String) (s : Store)
      → P s.sessions
      → Kept P (finish_mfa_login db w user_id req device_token s)
  unfolding finish_mfa_login Users.find_by_id
  finish-Kept user_id req device_token s i =
      then-Kept _ _ _
        (or_throw-Kept (db.find_first User (Users.with_id user_id) s.users) account_gone s i)
        (λ user t j.
          then-Kept _ _ _ (issue_tokens-Kept stable laws w user _ false t j)
            (λ _ t j. then-Kept _ _ _ (log-Kept stable laws _ _ _ _ _ t j) (λ _ t j. stays _ _ j)))

  pub complete_totp-Kept :
      (id code : String) (remember : Bool) (req : RequestContext) (s : Store)
      → P s.sessions
      → Kept P (complete_mfa_totp db w id code remember req s)
  unfolding complete_mfa_totp
  complete_totp-Kept id code remember req s i =
      then-Kept _ _ _ (totp_login-Kept stable laws w id code remember req s i)
        (λ v t j. finish-Kept v.user_id req v.device_token t j)

  pub complete_recovery-Kept :
      (id code : String) (req : RequestContext) (s : Store)
      → P s.sessions
      → Kept P (complete_mfa_recovery db w id code req s)
  unfolding complete_mfa_recovery
  complete_recovery-Kept id code req s i =
      then-Kept _ _ _ (recovery_login-Kept stable laws w id code req s i)
        (λ user_id t j. finish-Kept user_id req none t j)

  pub complete_webauthn-Kept :
      (id : String) (credential : Assertion) (remember : Bool) (req : RequestContext) (s : Store)
      → P s.sessions
      → Kept P (complete_webauthn_mfa db w id credential remember req s)
  unfolding complete_webauthn_mfa
  complete_webauthn-Kept id credential remember req s i =
      then-Kept _ _ _ (webauthn_login-Kept stable laws w id credential remember req s i)
        (λ v t j. finish-Kept v.user_id req v.device_token t j)

module _ {P : List Session → Type 0} (stable : IsStable P) {db : Prisma} (laws : IsPrisma db) where
  pub set_role-Kept :
      (actor_id id : String) (role : UserRole) (req : RequestContext) (s : Store)
      → P s.sessions
      → Kept P (set_user_role db actor_id id role req s)
  unfolding set_user_role Users.find_by_id Users.set_role
  set_role-Kept actor_id id role req s i =
      then-Kept _ _ _ (or_throw-Kept (db.find_first User (Users.with_id id) s.users) _ s i)
        (λ user t j.
          then-Kept _ _ _
            (require-Kept (not ((user.id == actor_id) && not (same_role role user.role))) _ t j)
            (λ _ t j. then-Kept _ _ _ (update_user-Kept stable laws _ _ t j) (λ _ t j.
              then-Kept _ _ _ (log-Kept stable laws _ _ _ _ _ t j) (λ _ t j. stays _ _ j))))

  pub set_status-Kept :
      (actor_id id : String) (status : UserStatus) (req : RequestContext) (s : Store)
      → P s.sessions
      → Kept P (set_user_status db actor_id id status req s)
  unfolding set_user_status Users.find_by_id
  set_status-Kept actor_id id status req s i =
      then-Kept _ _ _ (or_throw-Kept (db.find_first User (Users.with_id id) s.users) _ s i)
        (λ user t j.
          then-Kept _ _ _
            (require-Kept (not ((user.id == actor_id) && same_status status UserStatus.disabled)) _
              t j)
            (λ _ t j.
              then-Kept _ _ _
                (require-Kept
                  (not (
                    not (same_status status user.status)
                    && not (includes (allowed_transitions user.status) status)))
                  _ t j)
                (λ _ t j. then-Kept _ _ _ (update_user-Kept stable laws _ _ t j) (λ _ t j.
                  then-Kept _ _ _
                    (when-Kept (ends_sessions status) _ t j (revoke_all-Kept stable laws id none))
                    (λ _ t j.
                      then-Kept _ _ _ (log-Kept stable laws _ _ _ _ _ t j)
                        (λ _ t j. stays _ _ j))))))
