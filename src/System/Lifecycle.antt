-- ===== src/System/Lifecycle.antt =====
-- The life of a session, whatever the services do: it opens once and ends once.
use secure_auth_x_pro.Prelude.{
  ℕ, ◌≤◌, ◌≡◌, refl, Bool, true, false, ◌==◌, eq_iff, Option, none, some, List, [], ◌∷◌, ◌++◌, All,
  String, All-append, inl, inr, Bool-cases, if◌then◌else◌, arith,
}
use secure_auth_x_pro.Schema.{Store, Session, is_active}
use secure_auth_x_pro.Prisma.Table.{find_first, set_first, set_all}
use secure_auth_x_pro.Prisma.Rows.{Distinct, set_first-Distinct, set_all-Distinct}
use secure_auth_x_pro.Prisma.Append.{any-All}
use secure_auth_x_pro.Repositories.Sessions.{with_id, clashes}
use secure_auth_x_pro.Repositories.Effects.{open_session_of, revoked_session}
use secure_auth_x_pro.Auth.Refresh.Reuse.{session_id}
use secure_auth_x_pro.System.Kept.{IsStable, IsOrderly}

-- No two sessions have the same id.
abbrev pub UniqueIds : Store → Type 0
UniqueIds s = Distinct session_id s.sessions

-- A row with a new key at the end.
append-Distinct :
    {A : Type 0} (column : A → String) (t : List A) (a : A)
    → Distinct column t
    → All (λ x. (column x == column a) ≡ false) t
    → Distinct column (t ++ a ∷ [])
append-Distinct column [] a d h = (tt, tt)
append-Distinct column (b ∷ t) a (apart, d) (hb, h) = (
  All-append (λ x. (column x == column b) ≡ false) t a apart
      (ground (arith, eq_iff (column a) (column b), eq_iff (column b) (column a))),
  append-Distinct column t a d h,
)

pub UniqueIds-IsStable : IsStable (Distinct session_id)
UniqueIds-IsStable = record {
  appended = λ t new apart d.
      append-Distinct session_id t new d
        (any-All (clashes new) (λ x. session_id x == session_id new) t (λ x h. ground arith) apart);
  updated = λ t id f orderly d. set_first-Distinct session_id (with_id id) f t orderly.same_id d;
  revoked = λ t user_id except_id d.
      set_all-Distinct session_id (open_session_of user_id except_id) revoked_session t (λ x. refl)
        d;
}

-- The abstract session: not opened yet, live, or over.
pub data Phase : Type 0 where
  absent live over : Phase

abbrev phase_of_row : Session → Phase
phase_of_row x = if is_active x.status then live else over

abbrev phase_of : Option Session → Phase
phase_of none = absent
phase_of (some x) = phase_of_row x

-- The abstract view of the table: the phase of the session with an id.
abbrev pub phase : String → List Session → Phase
phase id t = phase_of (find_first (with_id id) t)

-- What the abstract session may do: open, end, or both. One that is over stays over.
infix 40 ◌⟶◌
pub data ◌⟶◌ : Phase → Phase → Type 0 where
  opens : absent ⟶ live
  ends : live ⟶ over
  rests : {p : Phase} → p ⟶ p
  follows : {p q r : Phase} → p ⟶ q → q ⟶ r → p ⟶ r

abbrev rank : Phase → ℕ
rank absent = 0
rank live = 1
rank over = 2

⟶_of_rank : (p q : Phase) → rank p ≤ rank q → p ⟶ q
⟶_of_rank absent absent h = rests
⟶_of_rank absent live h = opens
⟶_of_rank absent over h = follows opens ends
⟶_of_rank live absent h = absurd (omega arith)
⟶_of_rank live live h = rests
⟶_of_rank live over h = ends
⟶_of_rank over absent h = absurd (omega arith)
⟶_of_rank over live h = absurd (omega arith)
⟶_of_rank over over h = rests

row_rank :
    (x y : Session)
    → (is_active x.status ≡ false → is_active y.status ≡ false)
    → rank (phase_of_row x) ≤ rank (phase_of_row y)
row_rank x y h = elim (Bool-cases (is_active x.status)) [
  | inl on ↦ ground arith
  | inr off ↦ let off_too = h off in ground arith
]

rank-append :
    (id : String) (t : List Session) (new : Session)
    → rank (phase id t) ≤ rank (phase id (t ++ new ∷ []))
unfolding find_first
rank-append id [] new = omega arith
rank-append id (b ∷ t) new = elim (Bool-cases (with_id id b)) [
  | inl here ↦ rw here (omega arith)
  | inr there ↦ rw there (rank-append id t new)
]

rank-set_first :
    (id : String) (t : List Session) (k : String) (f : Session → Session)
    → IsOrderly f
    → rank (phase id t) ≤ rank (phase id (set_first (with_id k) f t))
unfolding find_first set_first
rank-set_first id [] k f orderly = omega arith
rank-set_first id (b ∷ t) k f orderly = elim (Bool-cases (with_id k b)) [
  | inl written ↦ elim (Bool-cases (with_id id b)) [
    | inl here ↦
        let still : with_id id (f b) ≡ true = rw (orderly.same_id b) here in
        rw (written, here, still) (row_rank b (f b) (orderly.stays_over b))
    | inr there ↦
        let still : with_id id (f b) ≡ false = rw (orderly.same_id b) there in
        rw (written, there, still) (omega arith)
  ]
  | inr kept ↦ elim (Bool-cases (with_id id b)) [
    | inl here ↦ rw (kept, here) (omega arith)
    | inr there ↦ rw (kept, there) (rank-set_first id t k f orderly)
  ]
]

rank-set_all :
    (id : String) (t : List Session) (p : Session → Bool)
    → rank (phase id t) ≤ rank (phase id (set_all p revoked_session t))
unfolding find_first set_all
rank-set_all id [] p = omega arith
rank-set_all id (b ∷ t) p = elim (Bool-cases (with_id id b)) [
  | inl here ↦ elim (Bool-cases (p b)) [
    | inl hit ↦ rw (hit, here) (row_rank b (revoked_session b) (λ h. refl))
    | inr missed ↦ rw (missed, here) (omega arith)
  ]
  | inr there ↦ elim (Bool-cases (p b)) [
    | inl hit ↦ rw (hit, there) (rank-set_all id t p)
    | inr missed ↦ rw (missed, there) (rank-set_all id t p)
  ]
]

-- A rank of the session with the id that the table has reached.
abbrev pub Reached : String → Phase → List Session → Type 0
Reached id p t = rank p ≤ rank (phase id t)

pub Reached-IsStable : (id : String) (p : Phase) → IsStable (Reached id p)
Reached-IsStable id p = record {
  appended = λ t new apart h. omega (arith, rank-append id t new);
  updated = λ t k f orderly h. omega (arith, rank-set_first id t k f orderly);
  revoked =
      λ t user_id except_id h. omega (arith, rank-set_all id t (open_session_of user_id except_id));
}

pub ⟶_of_Reached :
    (id : String) (s t : Store)
    → Reached id (phase id s.sessions) t.sessions
    → phase id s.sessions ⟶ phase id t.sessions
⟶_of_Reached id s t h = ⟶_of_rank (phase id s.sessions) (phase id t.sessions) h
