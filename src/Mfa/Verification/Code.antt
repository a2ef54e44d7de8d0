-- ===== src/Mfa/Verification/Code.antt =====
-- mfa.service.ts, verifyTotpLogin: what a login by TOTP code has checked.
use secure_auth_x_pro.Prelude.{
  ℕ, ◌≡◌, refl, ap, subst, sym, ◌∙◌, Bool, true, false, some, none, Option, String, inl, inr,
  Option-cases, delete_key,
}
use secure_auth_x_pro.Schema.{Store, LoginChallengeState, TotpSecret}
use secure_auth_x_pro.Prisma.{Prisma, IsPrisma}
use secure_auth_x_pro.Prisma.Table
use secure_auth_x_pro.World.{World}
use secure_auth_x_pro.Http.{RequestContext}
use secure_auth_x_pro.Exec.{
  Action, ok, err, pure, ◌>>=◌, app, unauthorized, internal, library_error,
}
use secure_auth_x_pro.Exec.Inversion.{Returns, returned, not_returned, bind_inv}
use secure_auth_x_pro.Repositories.Mfa
use secure_auth_x_pro.Repositories.Mfa.{secret_of}
use secure_auth_x_pro.Repositories.Effects
use secure_auth_x_pro.Cache.{key, challenge_prefix}
use secure_auth_x_pro.Cache.Laws.{pending, delete_challenge_runs, pending-delete_key}
use secure_auth_x_pro.Cipher.{decrypt}
use secure_auth_x_pro.Totp.{verify_totp}
use secure_auth_x_pro.Mfa.Challenges.{challenge_invalid}
use secure_auth_x_pro.Mfa.Challenges.Pending.{challenge_user_runs, challenge_user_missing}
use secure_auth_x_pro.Mfa.Devices.{trust_if}
use secure_auth_x_pro.Mfa.Devices.Trust.{trust_if-Keeps, rest_of}
use secure_auth_x_pro.Mfa.Verification.{
  verify_totp_login, reject_login, VerifiedLogin, totp_drift_steps,
}

-- What the code of a login is checked against.
pub record IsChecked (w : World) (id code : String) (s : Store) (user_id : String) : Type 0 where
  pub state : LoginChallengeState
  pub row : TotpSecret
  pub secret : String
  pub challenged : pending id s ≡ some state
  pub owner : state.user_id ≡ user_id
  pub stored : Table.find_first (secret_of user_id) s.totp_secrets ≡ some row
  pub opened : decrypt w row.secret ≡ some secret
  pub accepted : verify_totp w secret code totp_drift_steps s.now ≡ some true

module _ {db : Prisma} (laws : IsPrisma db) (w : World) (id code : String) (remember : Bool)
    (req : RequestContext) where
  get_secret_runs :
      (user_id : String) (s : Store)
      → Mfa.get_totp_secret db user_id s
        ≡ (ok (Table.find_first (secret_of user_id) s.totp_secrets), s)
  unfolding Mfa.get_totp_secret
  get_secret_runs user_id s = rw laws.finds_first

  module _ (s : Store) where
    missing_runs :
        pending id s ≡ none
        → (verify_totp_login db w id code remember req s).0 ≡ err challenge_invalid
    unfolding verify_totp_login
    missing_runs h = rw (verify_totp_login, challenge_user_missing id s h)

    no_secret_runs :
        (state : LoginChallengeState)
        → pending id s ≡ some state
        → Table.find_first (secret_of state.user_id) s.totp_secrets ≡ none
        → (verify_totp_login db w id code remember req s).0
          ≡ err (app (unauthorized "Invalid authentication code."))
    unfolding verify_totp_login reject_login
    no_secret_runs state h absent = rw (
      verify_totp_login,
      challenge_user_runs id s h,
      get_secret_runs state.user_id s,
      absent,
      reject_login,
      Effects.log_runs laws,
    )

    module _ (state : LoginChallengeState) (row : TotpSecret) (h : pending id s ≡ some state)
        (found : Table.find_first (secret_of state.user_id) s.totp_secrets ≡ some row) where
      unopened_runs :
          decrypt w row.secret ≡ none
          → (verify_totp_login db w id code remember req s).0
            ≡ err (app (internal "Could not verify the authentication code."))
      unfolding verify_totp_login reject_login
      unopened_runs shut = rw (
        verify_totp_login,
        challenge_user_runs id s h,
        get_secret_runs state.user_id s,
        found,
        shut,
        reject_login,
        Effects.log_runs laws,
      )

      failed_runs :
          (secret : String)
          → decrypt w row.secret ≡ some secret
          → verify_totp w secret code totp_drift_steps s.now ≡ none
          → (verify_totp_login db w id code remember req s).0 ≡ err library_error
      unfolding verify_totp_login
      failed_runs secret opened failed = rw (
        verify_totp_login,
        challenge_user_runs id s h,
        get_secret_runs state.user_id s,
        found,
        opened,
        failed,
      )

      rejected_runs :
          (secret : String)
          → decrypt w row.secret ≡ some secret
          → verify_totp w secret code totp_drift_steps s.now ≡ some false
          → (verify_totp_login db w id code remember req s).0
            ≡ err (app (unauthorized "Invalid authentication code."))
      unfolding verify_totp_login reject_login
      rejected_runs secret opened wrong = rw (
        verify_totp_login,
        challenge_user_runs id s h,
        get_secret_runs state.user_id s,
        found,
        opened,
        wrong,
        reject_login,
        Effects.log_runs laws,
      )

      -- The rest of an accepted login: the answer, after the device was remembered.
      abbrev answer : Option String → Action VerifiedLogin
      answer token = pure (record { user_id = state.user_id; device_token = token })

      accepted_runs :
          (secret : String)
          → decrypt w row.secret ≡ some secret
          → verify_totp w secret code totp_drift_steps s.now ≡ some true
          → verify_totp_login db w id code remember req s
            ≡ (trust_if db w remember state.user_id req >>= answer)
                (record s { cache = delete_key (key challenge_prefix id) s.cache })
      unfolding verify_totp_login
      accepted_runs secret opened right = rw (
        verify_totp_login,
        challenge_user_runs id s h,
        get_secret_runs state.user_id s,
        found,
        opened,
        right,
        delete_challenge_runs id s,
      )

      answered :
          (secret : String)
          → decrypt w row.secret ≡ some secret
          → verify_totp w secret code totp_drift_steps s.now ≡ some true
          → {v : VerifiedLogin} {t : Store}
          → Returns (verify_totp_login db w id code remember req) s v t
          → IsChecked w id code s v.user_id
            × (t.cache ≡ delete_key (key challenge_prefix id) s.cache)
            × (t.sessions ≡ s.sessions)
            × (t.now ≡ s.now)
      answered secret opened right {v} {t} ran =
          let u = record s { cache = delete_key (key challenge_prefix id) s.cache } in
          let went : Returns (trust_if db w remember state.user_id req >>= answer) u v t =
            sym (accepted_runs secret opened right) ∙ ran in
          let step = bind_inv (trust_if db w remember state.user_id req) answer u went in
          let (ev, et) = returned step.rest refl in
          let kept = trust_if-Keeps laws w remember state.user_id req u in
          let same = ap rest_of et ∙ (sym (ap (λ x. rest_of x.1) step.ran) ∙ kept) in
          (
            record {
              state = state;
              row = row;
              secret = secret;
              challenged = h;
              owner = ap (λ (x : VerifiedLogin). x.user_id) (sym ev);
              stored =
                  subst (λ x. Table.find_first (secret_of x) s.totp_secrets ≡ some row)
                    (ap (λ (x : VerifiedLogin). x.user_id) (sym ev)) found;
              opened = opened;
              accepted = right;
            },
            ap (λ x. x.0) same,
            ap (λ x. x.1) same,
            ap (λ x. x.2) same,
          )

  -- A login by TOTP code that returns had a pending challenge, and the code is one that the stored
  -- secret of the challenge's user accepts at that time, give or take one step of 30 seconds. The
  -- challenge cannot be used again, at whatever time, and no session was made.
  pub verify_totp_login-IsChecked :
      (s : Store) {v : VerifiedLogin} {t : Store}
      → Returns (verify_totp_login db w id code remember req) s v t
      → (later : ℕ)
      → IsChecked w id code s v.user_id
        × (pending id (record t { now = later }) ≡ none)
        × (t.sessions ≡ s.sessions)
        × (t.now ≡ s.now)
  verify_totp_login-IsChecked s {v} {t} ran later = elim (Option-cases (pending id s)) [
    | inl missing ↦ absurd (not_returned (missing_runs s missing) ran)
    | inr (state, h) ↦
        elim (Option-cases (Table.find_first (secret_of state.user_id) s.totp_secrets)) [
          | inl absent ↦ absurd (not_returned (no_secret_runs s state h absent) ran)
          | inr (row, found) ↦ elim (Option-cases (decrypt w row.secret)) [
            | inl shut ↦ absurd (not_returned (unopened_runs s state row h found shut) ran)
            | inr (secret, opened) ↦
                elim (Option-cases (verify_totp w secret code totp_drift_steps s.now)) [
                  | inl failed ↦
                      absurd
                        (not_returned (failed_runs s state row h found secret opened failed) ran)
                  | inr (true, right) ↦
                      let (checked, deleted, kept, at_time) =
                        answered s state row h found secret opened right ran in
                      (
                        checked,
                        pending-delete_key id s (record t { now = later }) deleted,
                        kept,
                        at_time,
                      )
                  | inr (false, wrong) ↦
                      absurd
                        (not_returned (rejected_runs s state row h found secret opened wrong) ran)
                ]
          ]
        ]
  ]
