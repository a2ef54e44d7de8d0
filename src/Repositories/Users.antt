-- ===== src/Repositories/Users.antt =====
-- packages/database/src/repositories/user.repository.ts. Ids are UUIDs: the program's client throws at
-- another id, which here has no row.
pub mod Listing
use secure_auth_x_pro.Prelude.{
  ℕ, Bool, true, false, ◌||◌, Option, none, some, String, ◌==◌, ltb, is_some, if◌then◌else◌,
}
use secure_auth_x_pro.Schema.{User, UserRole, UserStatus, same_status}
use secure_auth_x_pro.Prisma.{Prisma}
use secure_auth_x_pro.Exec.{Action, record_missing, unique_violation, ok, err}

abbrev pub with_id : String → User → Bool
with_id id u = u.id == id

abbrev pub with_email : String → User → Bool
with_email email u = u.email == email

-- Another row with the id or the email.
abbrev pub clashes : User → User → Bool
clashes new u = (u.id == new.id) || (u.email == new.email)

module _ (db : Prisma) where
  unfoldable pub find_by_email : String → Action (Option User)
  find_by_email email s = (ok (db.find_first User (with_email email) s.users), s)

  unfoldable pub find_by_id : String → Action (Option User)
  find_by_id id s = (ok (db.find_first User (with_id id) s.users), s)

  unfoldable pub create : User → Action User
  create data_ s = elim (db.create User (clashes data_) data_ s.users) [
    | none ↦ (err unique_violation, s)
    | some t ↦ (ok data_, record s { users = t })
  ]

  -- `data` is a function on the row; a column that it leaves out stays.
  unfoldable pub update : String → (User → User) → Action User
  update id f s = elim (db.update User (with_id id) f s.users) [
    | none ↦ (err record_missing, s)
    | some (u, t) ↦ (ok u, record s { users = t })
  ]

  unfoldable pub update_password : String → String → Action User
  unfolding update
  update_password id hash = update id (λ u. record u { password_hash = some hash })

  unfoldable pub mark_email_verified : String → Action User
  unfolding update
  mark_email_verified id s =
      update id
        (λ u. record u {
          email_verified = true;
          email_verified_at = some s.now;
          status = UserStatus.active;
        })
        s

  unfoldable pub mark_login_success : String → String → Action User
  unfolding update
  mark_login_success id ip s =
      update id
        (λ u. record u {
          last_login_at = some s.now;
          last_login_ip = some ip;
          failed_login_attempts = 0;
          locked_until = none;
        })
        s

  -- `status: lockUntil ? 'LOCKED' : undefined`
  unfoldable pub record_failed_login : String → ℕ → Option ℕ → Action User
  unfolding update
  record_failed_login id attempts lock_until = update id (λ u. record u {
    failed_login_attempts = attempts;
    locked_until = lock_until;
    status = if is_some lock_until then UserStatus.locked else u.status;
  })

  unfoldable pub unlock : String → Action User
  unfolding update
  unlock id =
      update id (λ u. record u {
        status = UserStatus.active;
        locked_until = none;
        failed_login_attempts = 0;
      })

  unfoldable pub set_status : String → UserStatus → Action User
  unfolding update
  set_status id status = update id (λ u. record u { status = status })

  unfoldable pub set_role : String → UserRole → Action User
  unfolding update
  set_role id role = update id (λ u. record u { role = role })

  unfoldable pub count_active : Action ℕ
  count_active s = (ok (db.count User (λ u. same_status u.status UserStatus.active) s.users), s)

-- A lock in force at `now`.
abbrev pub lock_pending : Option ℕ → ℕ → Bool
lock_pending none now = false
lock_pending (some t) now = ltb now t

-- isLocked
unfoldable pub is_locked : User → ℕ → Bool
is_locked u now =
    if same_status u.status UserStatus.disabled
    then true
    else if same_status u.status UserStatus.locked
    then lock_pending u.locked_until now
    else false
