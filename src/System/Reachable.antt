-- ===== src/System/Reachable.antt =====
-- The authentication, MFA and admin services as a state machine: one call after the other, each with any
-- arguments, whether it returns or throws, and time between the calls.
use secure_auth_x_pro.Prelude.{List, arith, ℕ, ◌≤◌, Bool, String}
use secure_auth_x_pro.Schema.{Session, Store, UserStatus, UserRole}
use secure_auth_x_pro.Prisma.{Prisma, IsPrisma}
use secure_auth_x_pro.World.{World}
use secure_auth_x_pro.Http.{RequestContext}
use secure_auth_x_pro.Auth.Login.{LoginInput, login}
use secure_auth_x_pro.Auth.Refresh.{refresh}
use secure_auth_x_pro.Auth.Logout.{logout}
use secure_auth_x_pro.Auth.Completion.{
  complete_mfa_totp, complete_mfa_recovery, complete_webauthn_mfa,
}
use secure_auth_x_pro.Auth.Registration.{RegisterInput, register, verify_email, resend_verification}
use secure_auth_x_pro.Mfa.WebAuthn.{Assertion, begin_webauthn_login}
use secure_auth_x_pro.Mfa.Enrollment.{
  Registration, begin_totp_enrollment, complete_totp_enrollment, begin_webauthn_registration,
  complete_webauthn_registration,
}
use secure_auth_x_pro.Mfa.RecoveryCodes.{regenerate_recovery_codes_with_password}
use secure_auth_x_pro.Mfa.Settings.{remove_webauthn_credential, disable}
use secure_auth_x_pro.Admin.{set_user_role, set_user_status}
use secure_auth_x_pro.System.Kept.{IsStable}
use secure_auth_x_pro.System.Lifecycle.{
  UniqueIds, UniqueIds-IsStable, phase, ◌⟶◌, Reached-IsStable, ⟶_of_Reached,
}
use secure_auth_x_pro.System.SignIns.{login-Kept}
use secure_auth_x_pro.System.Accounts.{
  refresh-Kept, logout-Kept, complete_totp-Kept, complete_recovery-Kept, complete_webauthn-Kept,
  set_role-Kept, set_status-Kept,
}
use secure_auth_x_pro.System.Factors.{
  complete_totp_enrollment-Kept, complete_registration-Kept, regenerate_with_password-Kept,
  remove_credential-Kept, disable-Kept,
}
use secure_auth_x_pro.System.Ceremonies.{
  begin_enrollment-Kept, begin_registration-Kept, begin_login-Kept,
}
use secure_auth_x_pro.System.Registration.{register-Kept, verify_email-Kept, resend-Kept}

-- One call of a service, or time that passes.
pub data Step (db : Prisma) (w : World) (req : RequestContext) (s : Store) : Store → Type 0 where
  logs_in : (input : LoginInput) → Step db w req s (login db w input req s).1
  refreshes : (token : String) → Step db w req s (refresh db w token req s).1
  logs_out : Step db w req s (logout db w req s).1
  completes_totp :
      (id code : String) (remember : Bool)
      → Step db w req s (complete_mfa_totp db w id code remember req s).1
  completes_recovery :
      (id code : String) → Step db w req s (complete_mfa_recovery db w id code req s).1
  completes_webauthn :
      (id : String) (credential : Assertion) (remember : Bool)
      → Step db w req s (complete_webauthn_mfa db w id credential remember req s).1
  registers : (input : RegisterInput) → Step db w req s (register db w input req s).1
  confirms : (token : String) → Step db w req s (verify_email db w token req s).1
  asks_again : (email : String) → Step db w req s (resend_verification db w email req s).1
  sets_role :
      (actor_id id : String) (role : UserRole)
      → Step db w req s (set_user_role db actor_id id role req s).1
  sets_status :
      (actor_id id : String) (status : UserStatus)
      → Step db w req s (set_user_status db actor_id id status req s).1
  starts_totp : (user_id : String) → Step db w req s (begin_totp_enrollment db w user_id s).1
  enrolls_totp :
      (user_id code : String) → Step db w req s (complete_totp_enrollment db w user_id code req s).1
  starts_key : (user_id : String) → Step db w req s (begin_webauthn_registration db w user_id s).1
  enrolls_key :
      (id user_id device_name : String) (registration : Registration)
      → Step db w req s
          (complete_webauthn_registration db w id user_id device_name registration req s).1
  starts_key_login : (id : String) → Step db w req s (begin_webauthn_login db w id s).1
  renews_codes :
      (user_id password : String)
      → Step db w req s (regenerate_recovery_codes_with_password db w user_id password req s).1
  removes_key :
      (user_id credential_id : String)
      → Step db w req s (remove_webauthn_credential db w user_id credential_id req s).1
  disables_mfa :
      (user_id password : String) → Step db w req s (disable db w user_id password req s).1
  waits : (later : ℕ) → s.now ≤ later → Step db w req s (record s { now = later })

-- The stores that a sequence of steps leads to.
pub data Reachable (db : Prisma) (w : World) (s : Store) : Store → Type 0 where
  here : Reachable db w s s
  after :
      (t u : Store) (req : RequestContext)
      → Reachable db w s t
      → Step db w req t u
      → Reachable db w s u

module _ {P : List Session → Type 0} (stable : IsStable P) {db : Prisma} (laws : IsPrisma db)
    (w : World) where
  step_keeps :
      (req : RequestContext) (s t : Store) → Step db w req s t → P s.sessions → P t.sessions
  step_keeps req s _ (logs_in input) i = (login-Kept stable laws w input req s i).kept
  step_keeps req s _ (refreshes token) i = (refresh-Kept stable laws w token req s i).kept
  step_keeps req s _ logs_out i = (logout-Kept stable laws w req s i).kept
  step_keeps req s _ (completes_totp id code remember) i =
      (complete_totp-Kept stable laws w id code remember req s i).kept
  step_keeps req s _ (completes_recovery id code) i =
      (complete_recovery-Kept stable laws w id code req s i).kept
  step_keeps req s _ (completes_webauthn id credential remember) i =
      (complete_webauthn-Kept stable laws w id credential remember req s i).kept
  step_keeps req s _ (registers input) i = (register-Kept stable laws w input req s i).kept
  step_keeps req s _ (confirms token) i = (verify_email-Kept stable laws w token req s i).kept
  step_keeps req s _ (asks_again email) i = (resend-Kept stable laws w email req s i).kept
  step_keeps req s _ (sets_role actor_id id role) i =
      (set_role-Kept stable laws actor_id id role req s i).kept
  step_keeps req s _ (sets_status actor_id id status) i =
      (set_status-Kept stable laws actor_id id status req s i).kept
  step_keeps req s _ (starts_totp user_id) i = (begin_enrollment-Kept {P = P} db w user_id s i).kept
  step_keeps req s _ (enrolls_totp user_id code) i =
      (complete_totp_enrollment-Kept stable laws w user_id code req s i).kept
  step_keeps req s _ (starts_key user_id) i =
      (begin_registration-Kept {P = P} db w user_id s i).kept
  step_keeps req s _ (enrolls_key id user_id device_name registration) i =
      (complete_registration-Kept stable laws w id user_id device_name registration req s i).kept
  step_keeps req s _ (starts_key_login id) i = (begin_login-Kept {P = P} db w id s i).kept
  step_keeps req s _ (renews_codes user_id password) i =
      (regenerate_with_password-Kept stable laws w user_id password req s i).kept
  step_keeps req s _ (removes_key user_id credential_id) i =
      (remove_credential-Kept stable laws w user_id credential_id req s i).kept
  step_keeps req s _ (disables_mfa user_id password) i =
      (disable-Kept stable laws w user_id password req s i).kept
  step_keeps req s _ (waits later passes) i = i

  -- Every sequence of calls keeps what the writes of sessions keep.
  pub Reachable_keeps : (s t : Store) → Reachable db w s t → P s.sessions → P t.sessions
  Reachable_keeps s _ here i = i
  Reachable_keeps s _ (after t u req before step) i =
      step_keeps req t u step (Reachable_keeps s t before i)

module _ {db : Prisma} (laws : IsPrisma db) (w : World) (s t : Store) where
  -- Whatever sequence of calls of the authentication, MFA and admin services is made from a store
  -- without two sessions of one id, whether they return or throw, no two sessions have the same id
  -- afterwards.
  pub Reachable-UniqueIds : Reachable db w s t → UniqueIds s → UniqueIds t
  Reachable-UniqueIds path i = Reachable_keeps UniqueIds-IsStable laws w s t path i

  -- Whatever sequence of calls is made, the session of an id only opens, ends, or rests as it is:
  -- one that is over is never live again, and one that was opened is never gone.
  pub Reachable-phase :
      (id : String) → Reachable db w s t → phase id s.sessions ⟶ phase id t.sessions
  Reachable-phase id path =
      ⟶_of_Reached id s t
        (Reachable_keeps (Reached-IsStable id (phase id s.sessions)) laws w s t path (omega arith))
