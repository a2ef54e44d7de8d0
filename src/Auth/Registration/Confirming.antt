-- ===== src/Auth/Registration/Confirming.antt =====
-- auth.service.ts, verifyEmail: what a token confirms.
use secure_auth_x_pro.Prelude.{
  ℕ, ◌+◌, ◌*◌, ◌≤◌, ◌≡◌, refl, true, false, some, [], String, eq_refl, le→ltb, arith,
}
use secure_auth_x_pro.Schema.{Store, User, UserStatus, EmailVerification, info}
use secure_auth_x_pro.Prisma.{Prisma, IsPrisma}
use secure_auth_x_pro.Prisma.Table
use secure_auth_x_pro.Prisma.Rows
use secure_auth_x_pro.Prisma.Append.{any-All, find_first-append}
use secure_auth_x_pro.World.{World}
use secure_auth_x_pro.Http.{RequestContext}
use secure_auth_x_pro.Exec.{ok}
use secure_auth_x_pro.Exec.Inversion.{Returns}
use secure_auth_x_pro.Repositories.Users
use secure_auth_x_pro.Repositories.EmailVerifications
use secure_auth_x_pro.Repositories.EmailVerifications.{clashes, with_hash, with_id}
use secure_auth_x_pro.Repositories.Effects
use secure_auth_x_pro.Repositories.Effects.{logged, user_written}
use secure_auth_x_pro.Auth.Registration.{
  issue_verification_token, verify_email, verify_found, Mode, is_spent,
}
use secure_auth_x_pro.Auth.Registration.Verifying
use secure_auth_x_pro.Auth.Registration.Verifying.{used, new_token, earlier, issued}

abbrev pub confirmed : ℕ → User → User
confirmed now u = record u {
  email_verified = true;
  email_verified_at = some now;
  status = UserStatus.active;
}

-- The store with a token spent.
abbrev pub with_used : String → Store → Store
with_used id s = record s {
  email_verifications = Table.set_first (with_id id) (used s.now) s.email_verifications;
}

module _ {db : Prisma} (laws : IsPrisma db) (w : World) where
  find_token_runs :
      (hash : String) (s : Store) {v : EmailVerification} {user : User}
      → Table.find_first (with_hash hash) s.email_verifications ≡ some v
      → Table.find_first (Users.with_id v.user_id) s.users ≡ some user
      → EmailVerifications.find_active_by_hash db hash s ≡ (ok (some (v, user)), s)
  unfolding EmailVerifications.find_active_by_hash
  find_token_runs hash s {v} found owner = rw (
    EmailVerifications.find_active_by_hash,
    laws.finds_first EmailVerification (with_hash hash) s.email_verifications,
    found,
    laws.finds_first,
    owner,
  )

  mark_used_runs :
      (id : String) (s : Store) {v : EmailVerification}
      → Table.find_first (with_id id) s.email_verifications ≡ some v
      → EmailVerifications.mark_used db id s ≡ (ok tt, with_used id s)
  unfolding EmailVerifications.mark_used
  mark_used_runs id s found =
      rw (EmailVerifications.mark_used, laws.updates, Rows.update-found _ (used s.now) _ found)

  verify_runs :
      (token : String) (req : RequestContext) (s : Store) {v : EmailVerification} {user : User}
      → Table.find_first (with_hash (w.sha256 token)) s.email_verifications ≡ some v
      → Table.find_first (with_id v.id) s.email_verifications ≡ some v
      → Table.find_first (Users.with_id v.user_id) s.users ≡ some user
      → Table.find_first (Users.with_id user.id) s.users ≡ some user
      → user.email_verified ≡ false
      → is_spent v s.now ≡ false
      → verify_email db w token req s ≡ (
        ok (record { email = user.email; verified = true }),
        logged
            (some user.id)
            "account.email_verified"
            info
            req
            []
            (user_written user.id (confirmed s.now) (with_used v.id s)),
      )
  unfolding verify_email verify_found Users.mark_email_verified
  verify_runs token req s {v} {user} found by_id owner own unverified unspent = rw (
    verify_email,
    find_token_runs (w.sha256 token) s found owner,
    verify_found,
    unverified,
    unspent,
    mark_used_runs v.id s by_id,
    Users.mark_email_verified,
    Effects.update_user_runs laws user.id (confirmed s.now) (with_used v.id s) own,
    Effects.log_runs laws,
  )

  -- The token that was mailed to an unverified user confirms the email until its time is over: the
  -- user is then verified and ACTIVE, whatever the status was.
  pub verify_email-issue_verification_token :
      (mode : Mode) (req : RequestContext) (s : Store) {user : User} {t : Store}
      → Table.find_first (Users.with_id user.id) s.users ≡ some user
      → user.email_verified ≡ false
      → Returns (issue_verification_token db w user.id user.email req mode) s tt t
      → (later_req : RequestContext) (later : ℕ) → later ≤ s.now + w.email_verification_ttl * 1000
      → let u = record t { now = later } in
        let verified = verify_email db w (w.random_base64url s.draws) later_req u in
        (verified.0 ≡ ok (record { email = user.email; verified = true }))
        × (Table.find_first (Users.with_id user.id) verified.1.users ≡ some (confirmed later user))
  verify_email-issue_verification_token mode req s {user} {t} found unverified ran later_req later
        early =
      let (apart, et) = Verifying.issue_inv w user.id user.email laws mode req s ran in
      let new = new_token w user.id user.email s in
      let u = record (issued w user.id user.email mode req s) { now = later } in
      let by_hash =
        find_first-append (with_hash new.token_hash) (earlier w user.id user.email s) new
          (any-All (clashes new) (with_hash new.token_hash) (earlier w user.id user.email s)
            (λ v h. ground arith) apart)
          (eq_refl new.token_hash) in
      let by_id =
        find_first-append (with_id new.id) (earlier w user.id user.email s) new
          (any-All (clashes new) (with_id new.id) (earlier w user.id user.email s)
            (λ v h. ground arith) apart)
          (eq_refl new.id) in
      rw
        (
          et,
          verify_runs (w.random_base64url s.draws) later_req u by_hash by_id found found unverified
              (le→ltb (s.now + w.email_verification_ttl * 1000) later early),
        )
        (
          refl,
          Rows.find_first-set_first (Users.with_id user.id) (confirmed later) s.users found
              (eq_refl user.id),
        )
