-- ===== src/Auth/Completion/SecondFactor.antt =====
-- auth.service.ts, completeMfaTotp and completeMfaRecovery: the session that a second factor gives.
use secure_auth_x_pro.Prelude.{
  ℕ, ◌+◌, ◌*◌, ◌≡◌, refl, ap, sym, subst, ◌∙◌, Bool, true, false, some, none, Option, [], ◌∷◌, ◌++◌,
  any, String, eq_iff, is_some, inl, inr, Bool-cases, Option-cases,
}
use secure_auth_x_pro.Schema.{Store, User, Session, LoginChallengeState, is_active, info, flag}
use secure_auth_x_pro.Prisma.{Prisma, IsPrisma}
use secure_auth_x_pro.Prisma.Table.{find_first}
use secure_auth_x_pro.Prisma.Rows.{find_first-holds}
use secure_auth_x_pro.World.{World}
use secure_auth_x_pro.Http.{RequestContext, get_client_ip, get_user_agent}
use secure_auth_x_pro.Exec.{ok, err, unique_violation}
use secure_auth_x_pro.Exec.Inversion.{Returns, refused, returned, bind_inv}
use secure_auth_x_pro.Repositories.Users.{with_id}
use secure_auth_x_pro.Repositories.Sessions.{clashes}
use secure_auth_x_pro.Repositories.Effects
use secure_auth_x_pro.Repositories.Effects.{logged}
use secure_auth_x_pro.Cache.Laws.{pending, pending-delete_key}
use secure_auth_x_pro.Mfa.Challenges.{account_gone}
use secure_auth_x_pro.Mfa.Verification.{verify_totp_login, verify_recovery_login}
use secure_auth_x_pro.Mfa.Verification.Code.{IsChecked, verify_totp_login-IsChecked}
use secure_auth_x_pro.Mfa.Verification.Recovery.{verify_recovery_login_lem, unused_codes}
use secure_auth_x_pro.Auth.Responses.{MfaLoginCompletion, to_auth_user}
use secure_auth_x_pro.Auth.Tokens.{Device, refresh_ttl}
use secure_auth_x_pro.Auth.Tokens.Issue
use secure_auth_x_pro.Auth.Completion.{finish_mfa_login, complete_mfa_totp, complete_mfa_recovery}

-- One active session was added, for the user, bound to the refresh token, that ends with the
-- session timeout.
pub record AddsSession (w : World) (user_id token : String) (s t : Store) : Type 0 where
  pub new : Session
  pub added : t.sessions ≡ s.sessions ++ new ∷ []
  pub owned : new.user_id ≡ user_id
  pub hashed : new.refresh_token_hash ≡ w.sha256 token
  pub in_use : is_active new.status ≡ true
  pub ends : new.expires_at ≡ s.now + w.session_timeout_minutes * 60 * 1000

module _ {db : Prisma} (laws : IsPrisma db) (w : World) (req : RequestContext) where
  abbrev device : Device
  device = record { ip = get_client_ip req; user_agent = get_user_agent req }

  abbrev new_session : User → Store → Session
  new_session user s = Issue.session_of w user device false s

  gone_runs :
      (user_id : String) (token : Option String) (s : Store)
      → find_first (with_id user_id) s.users ≡ none
      → finish_mfa_login db w user_id req token s ≡ (err account_gone, s)
  unfolding finish_mfa_login
  gone_runs user_id token s gone = rw (finish_mfa_login, Effects.find_by_id_runs laws, gone)

  taken_runs :
      (user_id : String) (token : Option String) (s : Store) {user : User}
      → find_first (with_id user_id) s.users ≡ some user
      → any (clashes (new_session user s)) s.sessions ≡ true
      → finish_mfa_login db w user_id req token s
        ≡ (err unique_violation, record s { draws = s.draws + 1 + 1 + 1 })
  unfolding finish_mfa_login
  taken_runs user_id token s {user} found clash = rw (
    finish_mfa_login,
    Effects.find_by_id_runs laws,
    found,
    Issue.issue_tokens_taken w user device false laws s clash,
  )

  finished_runs :
      (user_id : String) (token : Option String) (s : Store) {user : User}
      → find_first (with_id user_id) s.users ≡ some user
      → any (clashes (new_session user s)) s.sessions ≡ false
      → finish_mfa_login db w user_id req token s ≡ (
        ok (record {
          user = to_auth_user user;
          tokens = Issue.tokens_of w user device false s;
          device_token = token;
        }),
        logged
            (some user.id)
            "mfa.login_verified"
            info
            req
            (("rememberDevice", flag (is_some token)) ∷ [])
            (Issue.with_session w user device false s),
      )
  unfolding finish_mfa_login
  finished_runs user_id token s {user} found apart = rw (
    finish_mfa_login,
    Effects.find_by_id_runs laws,
    found,
    Issue.issue_tokens_runs w user device false laws s apart,
    Effects.log_runs laws,
  )

  finish_inv :
      (user_id : String) (token : Option String) (s u : Store) {r : MfaLoginCompletion} {t : Store}
      → u.sessions ≡ s.sessions
      → u.now ≡ s.now
      → Returns (finish_mfa_login db w user_id req token) u r t
      → (r.user.id ≡ user_id)
        × AddsSession w user_id r.tokens.refresh_token s t
        × (t.cache ≡ u.cache)
  unfolding to_auth_user refresh_ttl
  finish_inv user_id token s u {r} {t} same at_time ran =
      elim (Option-cases (find_first (with_id user_id) u.users)) [
        | inl gone ↦ absurd (refused (gone_runs user_id token u gone) ran)
        | inr (user, found) ↦ elim (Bool-cases (any (clashes (new_session user u)) u.sessions)) [
          | inl clash ↦ absurd (refused (taken_runs user_id token u found clash) ran)
          | inr apart ↦
              let (er, et) = returned ran (finished_runs user_id token u found apart) in
              let own : user.id ≡ user_id =
                (eq_iff user.id user_id).0 (find_first-holds (with_id user_id) u.users found) in
              rw (er, et)
                (
                  own,
                  record {
                    new = new_session user u;
                    added = ap (λ rows. rows ++ new_session user u ∷ []) same;
                    owned = own;
                    hashed = refl;
                    in_use = refl;
                    ends = ap (λ x. x + w.session_timeout_minutes * 60 * 1000) at_time;
                  },
                  refl,
                )
        ]
      ]

  -- A login completed with a TOTP code: the challenge was pending, the code was accepted by the
  -- secret of its user, exactly one session was added, for that user, with the session timeout
  -- whatever was chosen on the password step, and the challenge is over.
  pub complete_mfa_totp-AddsSession :
      (id code : String) (remember : Bool) (s : Store) {r : MfaLoginCompletion} {t : Store}
      → Returns (complete_mfa_totp db w id code remember req) s r t
      → (later : ℕ)
      → IsChecked w id code s r.user.id
        × AddsSession w r.user.id r.tokens.refresh_token s t
        × (pending id (record t { now = later }) ≡ none)
  unfolding complete_mfa_totp
  complete_mfa_totp-AddsSession id code remember s {r} {t} ran later =
      let step =
        bind_inv (verify_totp_login db w id code remember req)
          (λ verified. finish_mfa_login db w verified.user_id req verified.device_token) s ran in
      let (checked, over, same, at_time) =
        verify_totp_login-IsChecked laws w id code remember req s step.ran later in
      let (owner, adds, cache) =
        finish_inv step.value.user_id step.value.device_token s step.store same at_time step.rest in
      (
        subst (λ x. IsChecked w id code s x) (sym owner) checked,
        subst (λ x. AddsSession w x r.tokens.refresh_token s t) (sym owner) adds,
        rw cache over,
      )

  -- A login completed with a recovery code: the challenge was pending, the code was one unused code
  -- of its user, exactly one session was added, for that user, and the challenge is over.
  pub complete_mfa_recovery-AddsSession :
      (id code : String) (s : Store) {r : MfaLoginCompletion} {t : Store}
      → Returns (complete_mfa_recovery db w id code req) s r t
      → (later : ℕ)
      → ((state : LoginChallengeState) × (pending id s ≡ some state)
          × (state.user_id ≡ r.user.id)
          × (unused_codes w state.user_id code s ≡ 1))
        × AddsSession w r.user.id r.tokens.refresh_token s t
        × (pending id (record t { now = later }) ≡ none)
  unfolding complete_mfa_recovery
  complete_mfa_recovery-AddsSession id code s {r} {t} ran later =
      let step =
        bind_inv (verify_recovery_login db w id code req)
          (λ user_id. finish_mfa_login db w user_id req none) s ran in
      let (state, h, one, eu, et) =
        (verify_recovery_login_lem laws w id code req s step.value step.store).0 step.ran in
      let (owner, adds, cache) =
        finish_inv step.value none s step.store (ap (λ (x : Store). x.sessions) et)
          (ap (λ (x : Store). x.now) et) step.rest in
      (
        (state, h, sym eu ∙ sym owner, one),
        subst (λ x. AddsSession w x r.tokens.refresh_token s t) (sym owner) adds,
        pending-delete_key id s (record t { now = later }) (cache ∙ ap (λ (x : Store). x.cache) et),
      )
