-- ===== src/Prisma/Listing.antt =====
-- Deleting, one by one, the rows that a list query found.
use secure_auth_x_pro.Prelude.{
  ℕ, ◌≡◌, refl, Bool, true, false, not, ◌&&◌, ◌||◌, List, [], ◌∷◌, any, filter, ◌∙◌, subst, sym,
  All, All-weaken, Bool-cases, inl, inr, arith,
}
use mathlib.Core.List.{Permᴰ}
use secure_auth_x_pro.Prisma.Sorted.{IsListing}
use secure_auth_x_pro.Prisma.Table.{delete_many}

listed_stays :
    (keep mine later : Bool) → (keep && not later) ≡ false → (keep && not (mine || later)) ≡ false
listed_stays keep mine later h = ground arith

module _ {A : Type 0} where
  any-permute : (q : A → Bool) {l m : List A} → Permᴰ l m → any q l ≡ any q m
  any-permute q Permᴰ.nil = refl
  any-permute q (Permᴰ.cons e d) = rw (e, any-permute q d) refl
  any-permute q (Permᴰ.swap {a} {b} e f) = rw (← e, ← f) (ground arith)
  any-permute q (Permᴰ.trans d e) = any-permute q d ∙ any-permute q e

  filter-All :
      (p : A → Bool) (same : A → A → Bool) (t : List A)
      → ((x : A) → same x x ≡ true)
      → All (λ x. (p x && not (any (λ c. same c x) (filter p t))) ≡ false) t
  filter-All p same [] own = tt
  filter-All p same (b ∷ t) own =
      let missed =
        λ (l : List A). All (λ x. (p x && not (any (λ c. same c x) l)) ≡ false) (b ∷ t) in
      elim (Bool-cases (p b)) [
        | inl here ↦
            let kept : filter p (b ∷ t) ≡ b ∷ filter p t = rw here refl in
            subst missed (sym kept) (
              ground (arith, own b),
              All-weaken t
                  (λ x h. listed_stays (p x) (same b x) (any (λ c. same c x) (filter p t)) h)
                  (filter-All p same t own),
            )
        | inr there ↦
            let left : filter p (b ∷ t) ≡ filter p t = rw there refl in
            subst missed (sym left) (rw there refl, filter-All p same t own)
      ]

  -- A list query has every row that meets the test, up to a relation of each row to itself.
  pub IsListing-All :
      (key : A → ℕ) (p : A → Bool) (same : A → A → Bool) (t l : List A)
      → IsListing key p t l
      → ((x : A) → same x x ≡ true)
      → All (λ x. (p x && not (any (λ c. same c x) l)) ≡ false) t
  IsListing-All key p same t l listed own =
      All-weaken t (λ x h. rw (any-permute (λ c. same c x) listed.same_rows) h)
        (filter-All p same t own)

module _ {ℓ} {A : Type ℓ} where
  -- What holds of all rows holds of those that a deletion leaves, with the test of the deletion.
  pub delete_many-left {κ} :
      (P : A → Type κ) (p : A → Bool) (t : List A)
      → All P t
      → All (λ x. P x × (p x ≡ false)) (delete_many p t)
  unfolding delete_many
  delete_many-left P p [] h = tt
  delete_many-left P p (b ∷ t) (hb, h) = elim (Bool-cases (p b)) [
    | inl here ↦ rw here (delete_many-left P p t h)
    | inr there ↦ rw there ((hb, there), delete_many-left P p t h)
  ]
