-- ===== src/Repositories/Sessions.antt =====
-- packages/database/src/repositories/session.repository.ts
use secure_auth_x_pro.Prelude.{ℕ, Bool, true, not, ◌&&◌, ◌||◌, Option, none, some, String, ◌==◌}
use secure_auth_x_pro.Schema.{Session, SessionStatus, User, is_active}
use secure_auth_x_pro.Prisma.{Prisma}
use secure_auth_x_pro.Exec.{Action, record_missing, unique_violation, ok, err}
use secure_auth_x_pro.Repositories.Users.{with_id as user_with_id}

abbrev pub with_id : String → Session → Bool
with_id id x = x.id == id

abbrev pub clashes : Session → Session → Bool
clashes new x = (x.id == new.id) || (x.refresh_token_hash == new.refresh_token_hash)

-- `where: { id, status: 'ACTIVE' }`: an id that is undefined does not restrict the query.
abbrev pub active_with_id : Option String → Session → Bool
active_with_id none x = is_active x.status
active_with_id (some id) x = (x.id == id) && is_active x.status

-- `NOT: { id: exceptId }`, where an id is given
abbrev pub is_excepted : Option String → Session → Bool
is_excepted none x = true
is_excepted (some id) x = not (x.id == id)

module _ (db : Prisma) where
  unfoldable pub create : Session → Action Session
  create input s = elim (db.create Session (clashes input) input s.sessions) [
    | none ↦ (err unique_violation, s)
    | some t ↦ (ok input, record s { sessions = t })
  ]

  -- A session with its user. The foreign key has the user's row go with its sessions, so a session
  -- without a user is not found.
  abbrev include_user : Option Session → Option User → Option (Session × User)
  include_user (some x) (some u) = some (x, u)
  include_user _ _ = none

  abbrev owner_of : Option Session → String
  owner_of none = ""
  owner_of (some x) = x.user_id

  unfoldable pub find_active_by_id : Option String → Action (Option (Session × User))
  find_active_by_id id s =
      let x = db.find_first Session (active_with_id id) s.sessions in
      (ok (include_user x (db.find_first User (user_with_id (owner_of x)) s.users)), s)

  unfoldable pub update : String → (Session → Session) → Action (Unit {0})
  update id f s = elim (db.update Session (with_id id) f s.sessions) [
    | none ↦ (err record_missing, s)
    | some (x, t) ↦ (ok tt, record s { sessions = t })
  ]

  unfoldable pub rotate_token : String → String → ℕ → Action (Unit {0})
  unfolding update
  rotate_token id hash expires_at s =
      update id
        (λ x. record x {
          refresh_token_hash = hash;
          expires_at = expires_at;
          last_active_at = s.now;
        })
        s

  unfoldable pub mark_expired : String → Action (Unit {0})
  unfolding update
  mark_expired id = update id (λ x. record x { status = SessionStatus.expired })

  unfoldable pub revoke : String → Action (Unit {0})
  unfolding update
  revoke id = update id (λ x. record x { status = SessionStatus.revoked })

  unfoldable pub revoke_all_for_user : String → Option String → Action (Unit {0})
  revoke_all_for_user user_id except_id s =
      let (n, t) =
        db.update_many Session
          (λ x. (x.user_id == user_id) && is_active x.status && is_excepted except_id x)
          (λ x. record x { status = SessionStatus.revoked }) s.sessions in
      (ok tt, record s { sessions = t })
