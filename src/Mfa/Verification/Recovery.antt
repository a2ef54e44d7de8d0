-- ===== src/Mfa/Verification/Recovery.antt =====
-- mfa.service.ts, verifyRecoveryLogin: a recovery code and a challenge work once.
use secure_auth_x_pro.Prelude.{
  ℕ, ◌≡◌, ap, Bool, true, false, ◌&&◌, some, none, [], String, leb, ◌↔◌, inl, inr, Bool-cases,
  Option-cases, delete_key, arith,
}
use secure_auth_x_pro.Schema.{Store, LoginChallengeState, RecoveryCode, info}
use secure_auth_x_pro.Prisma.{Prisma, IsPrisma}
use secure_auth_x_pro.Prisma.Table
use secure_auth_x_pro.Prisma.Rows
use secure_auth_x_pro.World.{World}
use secure_auth_x_pro.Http.{RequestContext}
use secure_auth_x_pro.Exec.{app, ok, err, unauthorized, Failure}
use secure_auth_x_pro.Exec.Inversion.{Returns, returned, not_returned}
use secure_auth_x_pro.Repositories.Mfa
use secure_auth_x_pro.Repositories.Mfa.{claimable}
use secure_auth_x_pro.Repositories.Effects
use secure_auth_x_pro.Repositories.Effects.{logged}
use secure_auth_x_pro.Cache.{key, challenge_prefix}
use secure_auth_x_pro.Cache.Laws.{pending, delete_challenge_runs, pending-delete_key}
use secure_auth_x_pro.Mfa.Challenges.{challenge_invalid}
use secure_auth_x_pro.Mfa.Challenges.Pending.{challenge_user_runs, challenge_user_missing}
use secure_auth_x_pro.Mfa.RecoveryCodes.{code_hash}
use secure_auth_x_pro.Mfa.Verification.{verify_recovery_login, reject_login}

abbrev pub spent : ℕ → RecoveryCode → RecoveryCode
spent now c = record c { used_at = some now }

-- The store with the code of that hash spent.
abbrev pub with_spent : String → String → Store → Store
with_spent user_id hash s = record s {
  recovery_codes = Table.set_all (claimable user_id hash) (spent s.now) s.recovery_codes;
}

-- `count === 1`
abbrev pub is_unique : ℕ → Bool
is_unique n = leb 1 n && leb n 1

-- How many unused codes of the user the code is.
abbrev pub unused_codes : World → String → String → Store → ℕ
unused_codes w user_id code s = Table.count (claimable user_id (code_hash w code)) s.recovery_codes

abbrev pub redeemed : World → String → String → RequestContext → Store → LoginChallengeState → Store
redeemed w id code req s state =
    logged (some state.user_id) "mfa.recovery_code_used" info req []
      (record (with_spent state.user_id (code_hash w code) s) {
        cache = delete_key (key challenge_prefix id) s.cache;
      })

abbrev pub recovery_invalid : Failure
recovery_invalid = app (unauthorized "Invalid recovery code.")

module _ {db : Prisma} (laws : IsPrisma db) where
  consume_runs :
      (user_id hash : String) (s : Store)
      → let n = Table.count (claimable user_id hash) s.recovery_codes in
        Mfa.consume_recovery_code db user_id hash s ≡ (ok (is_unique n), with_spent user_id hash s)
  unfolding Mfa.consume_recovery_code Table.update_many
  consume_runs user_id hash s = rw laws.updates_many

  module _ (w : World) where
    recovery_missing_runs :
        (id code : String) (req : RequestContext) (s : Store)
        → pending id s ≡ none
        → (verify_recovery_login db w id code req s).0 ≡ err challenge_invalid
    unfolding verify_recovery_login
    recovery_missing_runs id code req s h =
        rw (verify_recovery_login, challenge_user_missing id s h)

    recovery_rejected_runs :
        (id code : String) (req : RequestContext) (s : Store) {state : LoginChallengeState}
        → pending id s ≡ some state
        → is_unique (unused_codes w state.user_id code s) ≡ false
        → (verify_recovery_login db w id code req s).0 ≡ err recovery_invalid
    unfolding verify_recovery_login reject_login
    recovery_rejected_runs id code req s {state} h none_left = rw (
      verify_recovery_login,
      challenge_user_runs id s h,
      consume_runs state.user_id (code_hash w code) s,
      none_left,
      reject_login,
      Effects.log_runs laws,
    )

    recovery_accepted_runs :
        (id code : String) (req : RequestContext) (s : Store) {state : LoginChallengeState}
        → pending id s ≡ some state
        → is_unique (unused_codes w state.user_id code s) ≡ true
        → verify_recovery_login db w id code req s
          ≡ (ok state.user_id, redeemed w id code req s state)
    unfolding verify_recovery_login
    recovery_accepted_runs id code req s {state} h one = rw (
      verify_recovery_login,
      challenge_user_runs id s h,
      consume_runs state.user_id (code_hash w code) s,
      one,
      delete_challenge_runs id (with_spent state.user_id (code_hash w code) s),
      Effects.log_runs laws,
    )

    -- A recovery code completes a login exactly when the challenge is pending and the code is one
    -- unused code of its user. The code is then marked as used, and the challenge is deleted.
    pub verify_recovery_login_lem :
        (id code : String) (req : RequestContext) (s : Store) (user_id : String) (t : Store)
        → Returns (verify_recovery_login db w id code req) s user_id t ↔ (
            (state : LoginChallengeState) × (pending id s ≡ some state)
            × (unused_codes w state.user_id code s ≡ 1)
            × (user_id ≡ state.user_id)
            × (t ≡ redeemed w id code req s state))
    verify_recovery_login_lem id code req s user_id t = (
      λ ran. elim (Option-cases (pending id s)) [
        | inl missing ↦ absurd (not_returned (recovery_missing_runs id code req s missing) ran)
        | inr (state, h) ↦ elim (Bool-cases (is_unique (unused_codes w state.user_id code s))) [
          | inl one ↦
              let (eu, et) = returned ran (recovery_accepted_runs id code req s h one) in
              (state, h, ground arith, eu, et)
          | inr none_left ↦
              absurd (not_returned (recovery_rejected_runs id code req s h none_left) ran)
        ]
      ],
      λ (state, h, one, eu, et).
          rw (eu, et) (recovery_accepted_runs id code req s h (ground arith)),
    )

    none_claimable :
        (hash user_id : String) (s : Store)
        → Table.count (claimable user_id hash) (with_spent user_id hash s).recovery_codes ≡ 0
    none_claimable hash user_id s =
        Rows.count-none (claimable user_id hash) (with_spent user_id hash s).recovery_codes (
          Rows.set_all-All (claimable user_id hash) (spent s.now) s.recovery_codes
            (λ c. ground arith))

    -- After a login by recovery code, the same code is refused to every challenge of the user, and
    -- the challenge itself is refused with every code, at whatever time.
    pub verify_recovery_login-verify_recovery_login :
        (id code : String) (req : RequestContext) (s : Store) {user_id : String} {t : Store}
        → Returns (verify_recovery_login db w id code req) s user_id t
        → (other again any_code : String) (later_req : RequestContext) (later : ℕ)
          {state : LoginChallengeState}
        → pending other (record t { now = later }) ≡ some state
        → state.user_id ≡ user_id
        → code_hash w again ≡ code_hash w code
        → ((verify_recovery_login db w other again later_req (record t { now = later })).0
            ≡ err recovery_invalid)
          × ((verify_recovery_login db w id any_code later_req (record t { now = later })).0
              ≡ err challenge_invalid)
    verify_recovery_login-verify_recovery_login id code req s {user_id} {t} ran other again any_code
          later_req later {state} h same hash =
        let (first, _, _, eu, et) = (verify_recovery_login_lem id code req s user_id t).0 ran in
        let u = record t { now = later } in
        (
          recovery_rejected_runs other again later_req u h (
              rw (
                same,
                eu,
                hash,
                ap (λ x. x.recovery_codes) et,
                none_claimable (code_hash w code) first.user_id s,
              )),
          recovery_missing_runs id any_code later_req u
              (pending-delete_key id s u (ap (λ x. x.cache) et)),
        )
