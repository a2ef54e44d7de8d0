-- ===== src/Exec/Inversion.antt =====
-- A sequence that returned: each of its steps returned.
use secure_auth_x_pro.Prelude.{
  ◌≡◌, refl, ap, if◌then◌else◌, ◌⊎◌, inl, inr, Bool, true, false, Option, none, some, arith,
}
use secure_auth_x_pro.Schema.{Store}
use secure_auth_x_pro.Exec.{
  AppError, Failure, Result, ok, err, Action, proceed, ◌>>=◌, require, or_throw,
}

-- `m` run at `s` returned `a` and left `t`.
abbrev pub Returns : {A : Type 0} → Action A → Store → A → Store → Type 0
Returns m s a t = m s ≡ (ok a, t)

-- The step that `m` made before `k` returned.
pub record Step {A B : Type 0} (m : Action A) (k : A → Action B) (s : Store) (b : B) (u : Store)
    : Type 0 where
  pub value : A
  pub store : Store
  pub ran : Returns m s value store
  pub rest : Returns (k value) store b u

proceed_inv :
    {A B : Type 0} (k : A → Action B) (r : Result A) (t : Store) {b : B} {u : Store}
    → proceed r k t ≡ (ok b, u)
    → (a : A) × (r ≡ ok a) × (k a t ≡ (ok b, u))
proceed_inv k (ok a) t h = (a, refl, h)
proceed_inv k (err e) t h = cc

pub bind_inv :
    {A B : Type 0} (m : Action A) (k : A → Action B) (s : Store) {b : B} {u : Store}
    → Returns (m >>= k) s b u
    → Step m k s b u
bind_inv m k s h =
    let (a, e, f) = proceed_inv k (m s).0 (m s).1 h in
    record { value = a; store = (m s).1; ran = λ i. (e i, (m s).1); rest = f }

pub require_inv :
    (b : Bool) (e : AppError) (s : Store) {u : Unit {0}} {t : Store}
    → Returns (require b e) s u t
    → (b ≡ true) × (s ≡ t)
require_inv true e s h = (refl, ground arith)
require_inv false e s h = cc

pub or_throw_inv :
    {A : Type 0} (o : Option A) (e : Failure) (s : Store) {a : A} {t : Store}
    → Returns (or_throw o e) s a t
    → (o ≡ some a) × (s ≡ t)
or_throw_inv (some a) e s h = (ground arith, ground arith)
or_throw_inv none e s h = cc

-- What ends in an error does not return.
pub refused :
    {A : Type 0} {m : Result A × Store} {e : Failure} {u t : Store} {a : A}
    → m ≡ (err e, u)
    → m ≡ (ok a, t)
    → ⊥
refused h k = cc

-- An action has one outcome.
pub returned_value :
    {A : Type 0} {m : Result A × Store} {a b : A} {t u : Store}
    → m ≡ (ok a, t)
    → m ≡ (ok b, u)
    → a ≡ b
returned_value h k = cc

pub returned_store :
    {A : Type 0} {m : Result A × Store} {a b : A} {t u : Store}
    → m ≡ (ok a, t)
    → m ≡ (ok b, u)
    → t ≡ u
returned_store h k = cc

pub returned :
    {A : Type 0} {m : Result A × Store} {a b : A} {t u : Store}
    → m ≡ (ok a, t)
    → m ≡ (ok b, u)
    → (a ≡ b) × (t ≡ u)
returned h k = (returned_value h k, returned_store h k)

pub if_inv :
    {A : Type 0} (b : Bool) (m n : Action A) (s : Store) {a : A} {t : Store}
    → Returns (if b then m else n) s a t
    → ((b ≡ true) × Returns m s a t) ⊎ ((b ≡ false) × Returns n s a t)
if_inv true m n s h = inl (refl, h)
if_inv false m n s h = inr (refl, h)

pub not_returned :
    {A : Type 0} {m : Result A × Store} {e : Failure} {a : A} {t : Store}
    → m.0 ≡ err e
    → m ≡ (ok a, t)
    → ⊥
not_returned h k = let same = ap (λ x. x.0) k in cc
