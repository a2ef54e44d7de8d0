-- ===== src/Admin/Transitions.antt =====
-- admin.service.ts, setUserStatus: which changes of status are made, and what they leave.
use secure_auth_x_pro.Prelude.{
  ◌≡◌, refl, Bool, true, false, not, ◌&&◌, none, some, [], ◌∷◌, String, ◌==◌, eq_iff, arith, ◌⊎◌,
  ◌↔◌, inl, inr, Bool-cases, if◌then◌else◌,
}
use secure_auth_x_pro.Schema.{Store, User, UserStatus, same_status, text}
use secure_auth_x_pro.Prisma.{Prisma, IsPrisma}
use secure_auth_x_pro.Prisma.Table.{find_first}
use secure_auth_x_pro.Http.{RequestContext}
use secure_auth_x_pro.Exec.{app, ok, err}
use secure_auth_x_pro.Repositories.Users.{with_id}
use secure_auth_x_pro.Repositories.Effects
use secure_auth_x_pro.Repositories.Effects.{logged, user_written, sessions_revoked}
use secure_auth_x_pro.Admin.{
  set_user_status, allowed_transitions, includes, status_update, ends_sessions, status_action,
  status_severity, status_name, own_account, no_transition,
}

-- The changes of status that an administrator may make.
pub data CanBecome : UserStatus → UserStatus → Type 0 where
  stays : (status : UserStatus) → CanBecome status status
  locks : CanBecome UserStatus.active UserStatus.locked
  suspends : CanBecome UserStatus.active UserStatus.pending_verification
  disables : (status : UserStatus) → CanBecome status UserStatus.disabled
  activates : (status : UserStatus) → CanBecome status UserStatus.active

abbrev permitted : UserStatus → UserStatus → Bool
permitted current status =
    not (not (same_status status current) && not (includes (allowed_transitions current) status))

CanBecome-permitted : {a b : UserStatus} → CanBecome a b → permitted a b ≡ true
unfolding includes allowed_transitions
CanBecome-permitted (stays UserStatus.active) = refl
CanBecome-permitted (stays UserStatus.locked) = refl
CanBecome-permitted (stays UserStatus.disabled) = refl
CanBecome-permitted (stays UserStatus.pending_verification) = refl
CanBecome-permitted locks = refl
CanBecome-permitted suspends = refl
CanBecome-permitted (disables UserStatus.active) = refl
CanBecome-permitted (disables UserStatus.locked) = refl
CanBecome-permitted (disables UserStatus.disabled) = refl
CanBecome-permitted (disables UserStatus.pending_verification) = refl
CanBecome-permitted (activates UserStatus.active) = refl
CanBecome-permitted (activates UserStatus.locked) = refl
CanBecome-permitted (activates UserStatus.disabled) = refl
CanBecome-permitted (activates UserStatus.pending_verification) = refl

permitted-CanBecome : (a b : UserStatus) → permitted a b ≡ true → CanBecome a b
unfolding includes allowed_transitions
permitted-CanBecome UserStatus.active UserStatus.active h = stays UserStatus.active
permitted-CanBecome UserStatus.active UserStatus.locked h = locks
permitted-CanBecome UserStatus.active UserStatus.pending_verification h = suspends
permitted-CanBecome UserStatus.locked UserStatus.locked h = stays UserStatus.locked
permitted-CanBecome UserStatus.pending_verification UserStatus.pending_verification h =
    stays UserStatus.pending_verification
permitted-CanBecome a UserStatus.disabled h = disables a
permitted-CanBecome a UserStatus.active h = activates a
permitted-CanBecome UserStatus.locked UserStatus.pending_verification h = cc
permitted-CanBecome UserStatus.disabled UserStatus.locked h = cc
permitted-CanBecome UserStatus.disabled UserStatus.pending_verification h = cc
permitted-CanBecome UserStatus.pending_verification UserStatus.locked h = cc

contradicts : {b : Bool} → b ≡ true → b ≡ false → ⊥
contradicts h k = cc

is_disabled_inv :
    (a : UserStatus) → same_status a UserStatus.disabled ≡ true → a ≡ UserStatus.disabled
is_disabled_inv UserStatus.disabled h = refl
is_disabled_inv UserStatus.active h = cc
is_disabled_inv UserStatus.locked h = cc
is_disabled_inv UserStatus.pending_verification h = cc

own_account_iff :
    (a b : String) (status : UserStatus)
    → (((a == b) && same_status status UserStatus.disabled) ≡ true)
      ↔ ((a ≡ b) × (status ≡ UserStatus.disabled))
own_account_iff a b status = (
  λ h. (ground (arith, eq_iff a b), is_disabled_inv status (ground arith)),
  λ (e, d). rw d (ground (arith, eq_iff a b)),
)

-- The store after the status of `user` was changed: the row written, its sessions ended where the
-- account is no longer usable, and the change logged.
abbrev pub status_changed : String → String → User → UserStatus → RequestContext → Store → Store
status_changed actor_id id user status req s =
    logged (some actor_id) (status_action status) (status_severity status) req
      (("targetUserId", text id)
        ∷ ("previousStatus", text (status_name user.status))
        ∷ ("newStatus", text (status_name status))
        ∷ [])
      (if ends_sessions status
        then sessions_revoked id none (user_written id (status_update status) s)
        else user_written id (status_update status) s)

module _ {db : Prisma} (laws : IsPrisma db) where
  set_user_status_runs :
      (actor_id id : String) (status : UserStatus) (req : RequestContext) (s : Store) {user : User}
      → find_first (with_id id) s.users ≡ some user
      → ((user.id == actor_id) && same_status status UserStatus.disabled) ≡ false
      → permitted user.status status ≡ true
      → set_user_status db actor_id id status req s
        ≡ (ok (status_update status user), status_changed actor_id id user status req s)
  unfolding set_user_status
  set_user_status_runs actor_id id status req s {user} found other allowed =
      rw
        (
          set_user_status,
          Effects.find_by_id_runs laws id s,
          found,
          other,
          allowed,
          Effects.update_user_runs laws id (status_update status) s found,
        )
        (elim (Bool-cases (ends_sessions status)) [
          | inl ends ↦ rw (
            ends,
            Effects.revoke_all_runs laws id none (user_written id (status_update status) s),
            Effects.log_runs laws,
          )
          | inr keeps ↦ rw (keeps, Effects.log_runs laws)
        ])

  set_user_status_refuses :
      (actor_id id : String) (status : UserStatus) (req : RequestContext) (s : Store) {user : User}
      → find_first (with_id id) s.users ≡ some user
      → ((user.id == actor_id) && same_status status UserStatus.disabled) ≡ false
      → permitted user.status status ≡ false
      → set_user_status db actor_id id status req s ≡ (err (app no_transition), s)
  unfolding set_user_status
  set_user_status_refuses actor_id id status req s {user} found other refused =
      rw (set_user_status, Effects.find_by_id_runs laws id s, found, other, refused)

  set_user_status_protects :
      (actor_id id : String) (status : UserStatus) (req : RequestContext) (s : Store) {user : User}
      → find_first (with_id id) s.users ≡ some user
      → ((user.id == actor_id) && same_status status UserStatus.disabled) ≡ true
      → set_user_status db actor_id id status req s ≡ (err (app own_account), s)
  unfolding set_user_status
  set_user_status_protects actor_id id status req s {user} found own =
      rw (set_user_status, Effects.find_by_id_runs laws id s, found, own)

  -- For a user that exists, exactly one of three things happens: the administrator's own account
  -- is being disabled, which is forbidden and changes nothing; the change is not one that
  -- `CanBecome` lists, which is a bad request and changes nothing; or it is listed, and then the
  -- row has the new status, with a lock until 2999 if it is LOCKED and none otherwise, the
  -- user's active sessions are revoked if the new status is LOCKED or DISABLED, the change is
  -- logged, and the updated row is returned.
  pub set_user_status_lem :
      (actor_id id : String) (status : UserStatus) (req : RequestContext) (s : Store) {user : User}
      → find_first (with_id id) s.users ≡ some user
      → ((user.id ≡ actor_id)
          × (status ≡ UserStatus.disabled)
          × (set_user_status db actor_id id status req s ≡ (err (app own_account), s)))
        ⊎ ((¬ CanBecome user.status status)
            × (set_user_status db actor_id id status req s ≡ (err (app no_transition), s)))
        ⊎ (CanBecome user.status status
            × (¬ ((user.id ≡ actor_id) × (status ≡ UserStatus.disabled)))
            × (set_user_status db actor_id id status req s
                ≡ (ok (status_update status user), status_changed actor_id id user status req s)))
  set_user_status_lem actor_id id status req s {user} found =
      elim (Bool-cases ((user.id == actor_id) && same_status status UserStatus.disabled)) [
        | inl own ↦
            let (e, d) = (own_account_iff user.id actor_id status).0 own in
            inl (e, d, set_user_status_protects actor_id id status req s found own)
        | inr other ↦ elim (Bool-cases (permitted user.status status)) [
          | inl allowed ↦ inr (
              inr (
                permitted-CanBecome user.status status allowed,
                λ own. absurd (contradicts ((own_account_iff user.id actor_id status).1 own) other),
                set_user_status_runs actor_id id status req s found other allowed,
              ))
          | inr refused ↦ inr (
              inl (
                λ can. absurd (contradicts (CanBecome-permitted can) refused),
                set_user_status_refuses actor_id id status req s found other refused,
              ))
        ]
      ]
