-- ===== src/Prisma/Append.antt =====
-- What a query finds after a row was added at the end.
use secure_auth_x_pro.Prelude.{
  ◌+◌, ◌≡◌, Bool, true, false, some, List, [], ◌∷◌, ◌++◌, any, All, Bool-cases, inl, inr, arith,
}
use secure_auth_x_pro.Prisma.Table.{find_first, count}

module _ {ℓ} {A : Type ℓ} where
  pub any-All :
      (q p : A → Bool) (t : List A)
      → ((x : A) → q x ≡ false → p x ≡ false)
      → any q t ≡ false
      → All (λ x. p x ≡ false) t
  any-All q p [] h none_of = tt
  any-All q p (b ∷ t) h none_of = elim (Bool-cases (q b)) [
    | inl here ↦ absurd (ground arith)
    | inr there ↦ (h b there, any-All q p t h (rw there at none_of))
  ]

  pub find_first-append :
      (p : A → Bool) (t : List A) (a : A)
      → All (λ x. p x ≡ false) t
      → p a ≡ true
      → find_first p (t ++ a ∷ []) ≡ some a
  unfolding find_first
  find_first-append p [] a h here = rw here
  find_first-append p (b ∷ t) a (hb, h) here = rw hb (find_first-append p t a h here)

  pub count-append : (p : A → Bool) (t u : List A) → count p (t ++ u) ≡ count p t + count p u
  unfolding count
  count-append p [] u = omega arith
  count-append p (b ∷ t) u = omega (arith, count-append p t u)
