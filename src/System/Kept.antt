-- ===== src/System/Kept.antt =====
-- A property of the rows of sessions through the steps of an action. What was written before a
-- throw counts.
use secure_auth_x_pro.Prelude.{
  ◌≡◌, Bool, true, false, Option, none, some, List, [], ◌∷◌, ◌++◌, any, String, if◌then◌else◌,
}
use secure_auth_x_pro.Schema.{Store, Session, is_active}
use secure_auth_x_pro.Prisma.Table.{set_first, set_all}
use secure_auth_x_pro.Exec.{
  Action, AppError, Failure, Result, ok, err, proceed, require, or_throw, or_reject, when,
}
use secure_auth_x_pro.Repositories.Sessions.{with_id, clashes}
use secure_auth_x_pro.Repositories.Effects.{open_session_of, revoked_session}
use secure_auth_x_pro.Auth.Refresh.Reuse.{session_id}

-- What the code does to a row of a session: its id stays, and it is not made active again.
pub record IsOrderly (f : Session → Session) : Type 0 where
  pub same_id : (x : Session) → session_id (f x) ≡ session_id x
  pub stays_over : (x : Session) → is_active x.status ≡ false → is_active (f x).status ≡ false

-- The three ways in which the repository writes sessions leave the property.
pub record IsStable (P : List Session → Type 0) : Type 0 where
  pub appended :
      (t : List Session) (new : Session) → any (clashes new) t ≡ false → P t → P (t ++ new ∷ [])
  pub updated :
      (t : List Session) (id : String) (f : Session → Session)
      → IsOrderly f
      → P t
      → P (set_first (with_id id) f t)
  pub revoked :
      (t : List Session) (user_id : String) (except_id : Option String)
      → P t
      → P (set_all (open_session_of user_id except_id) revoked_session t)

-- An outcome whose sessions have the property.
pub record Kept (P : List Session → Type 0) {A : Type 0} (x : Result A × Store) : Type 0 where
  pub kept : P x.1.sessions

module _ {P : List Session → Type 0} where
  pub stays : {A : Type 0} (r : Result A) (s : Store) → P s.sessions → Kept P (r, s)
  stays r s i = record { kept = i }

  pub then-Kept :
      {A B : Type 0} (k : A → Action B) (r : Result A) (s : Store)
      → Kept P (r, s)
      → ((a : A) (t : Store) → P t.sessions → Kept P (k a t))
      → Kept P (proceed r k s)
  then-Kept k (ok a) s i h = h a s i.kept
  then-Kept k (err e) s i h = stays (err e) s i.kept

  pub if-Kept :
      {A : Type 0} (b : Bool) (m n : Action A) (s : Store)
      → P s.sessions
      → ((t : Store) → P t.sessions → Kept P (m t))
      → ((t : Store) → P t.sessions → Kept P (n t))
      → Kept P ((if b then m else n) s)
  if-Kept true m n s i h k = h s i
  if-Kept false m n s i h k = k s i

  pub require-Kept : (b : Bool) (e : AppError) (s : Store) → P s.sessions → Kept P (require b e s)
  require-Kept true e s i = stays _ s i
  require-Kept false e s i = stays _ s i

  pub or_throw-Kept :
      {A : Type 0} (o : Option A) (e : Failure) (s : Store) → P s.sessions → Kept P (or_throw o e s)
  or_throw-Kept none e s i = stays _ s i
  or_throw-Kept (some a) e s i = stays _ s i

  pub or_reject-Kept :
      {A : Type 0} (o : Option A) (m : Action A) (s : Store)
      → P s.sessions
      → ((t : Store) → P t.sessions → Kept P (m t))
      → Kept P (or_reject o m s)
  or_reject-Kept none m s i h = h s i
  or_reject-Kept (some a) m s i h = stays _ s i

  pub when-Kept :
      (b : Bool) (m : Action (Unit {0})) (s : Store)
      → P s.sessions
      → ((t : Store) → P t.sessions → Kept P (m t))
      → Kept P (when b m s)
  when-Kept true m s i h = h s i
  when-Kept false m s i h = stays _ s i
