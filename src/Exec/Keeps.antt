-- ===== src/Exec/Keeps.antt =====
-- What an action leaves as it was: a part of the store that none of its steps writes.
use secure_auth_x_pro.Prelude.{◌≡◌, refl}
use secure_auth_x_pro.Schema.{Store}
use secure_auth_x_pro.Exec.{Action, Result, ok, err, proceed}

module _ {ℓ} {X : Type ℓ} (part : Store → X) where
  abbrev pub Keeps : {A : Type 0} → Action A → Type ℓ
  Keeps m = (s : Store) → part (m s).1 ≡ part s

  -- What follows a step keeps the part, if the rest does.
  pub proceed-Keeps :
      {A B : Type 0} (r : Result A) (k : A → Action B) (s : Store)
      → ((a : A) → Keeps (k a))
      → part (proceed r k s).1 ≡ part s
  proceed-Keeps (ok a) k s h = h a s
  proceed-Keeps (err e) k s h = refl
