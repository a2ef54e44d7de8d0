-- ===== src/Prisma/Unique.antt =====
-- Where no two rows have the same key, a list query has one answer.
use mathlib.Core.List.{Permᴰ}
use mathlib.Core.List.Permᴰ
use secure_auth_x_pro.Prelude.{
  ℕ, ◌≤◌, ◌<◌, ◌≡◌, ◌≢◌, refl, sym, subst, Bool, List, [], ◌∷◌, filter, All, All-weaken, arith,
}
use secure_auth_x_pro.Prisma.Table.{find_many}
use secure_auth_x_pro.Prisma.Sorted.{NewestFirst, IsListing, All-permute, find_many-IsListing}

module _ {A : Type 0} where
  All-both {κ μ} :
      (P : A → Type κ) (Q : A → Type μ) (xs : List A)
      → All P xs
      → All Q xs
      → All (λ x. P x × Q x) xs
  All-both P Q [] h k = tt
  All-both P Q (x ∷ xs) (hx, h) (kx, k) = ((hx, kx), All-both P Q xs h k)

  -- What holds of all rows of one holds of all rows of the other.
  record Same (l m : List A) : Type 1 where
    to : (P : A → Type 0) → All P l → All P m
    back : (P : A → Type 0) → All P m → All P l

module _ {A : Type 0} (key : A → ℕ) where
  -- No two rows have the same key.
  abbrev pub NoTies : List A → Type 0
  NoTies [] = Unit
  NoTies (x ∷ xs) = All (λ y. key y ≢ key x) xs × NoTies xs

  NoTies-permute : {l m : List A} → Permᴰ l m → NoTies l → NoTies m
  NoTies-permute Permᴰ.nil h = tt
  NoTies-permute (Permᴰ.cons {a} {b} {l₂ = m} e d) (ha, h) = (
    subst (λ x. All (λ y. key y ≢ key x) m) e (All-permute (λ y. key y ≢ key a) d ha),
    NoTies-permute d h,
  )
  NoTies-permute (Permᴰ.swap {a} {b} {a' = a'} {l = l} e f) ((apart, ha), (hb, h)) = (
    (
      subst (λ x. key x ≢ key a') e (subst (λ y. key a ≢ key y) f (λ same. apart (sym same))),
      subst (λ x. All (λ y. key y ≢ key x) l) f hb,
    ),
    (subst (λ x. All (λ y. key y ≢ key x) l) e ha, h),
  )
  NoTies-permute (Permᴰ.trans d e) h = NoTies-permute e (NoTies-permute d h)

  abbrev Descending : List A → Type 0
  Descending [] = Unit
  Descending (x ∷ xs) = All (λ y. key y < key x) xs × Descending xs

  descending : (l : List A) → NewestFirst key l → NoTies l → Descending l
  descending [] h k = tt
  descending (x ∷ xs) (hx, h) (kx, k) = (
    All-weaken xs (λ y (older, apart). let n : key y ≢ key x = apart in ground arith)
        (All-both (λ y. key y ≤ key x) (λ y. key y ≢ key x) xs hx kx),
    descending xs h k,
  )

  tails :
      (x y : A) (l m : List A)
      → key x ≡ key y
      → ((P : A → Type 0) → All P (x ∷ l) → All P (y ∷ m))
      → All (λ z. key z < key y) m
      → (P : A → Type 0) → All P l
      → All P m
  tails x y l m e to below P h =
      let carried =
        to (λ z. key z < key x → P z) (λ lt. absurd (omega arith), All-weaken l (λ z p lt. p) h) in
      All-weaken m (λ z (lt, f). f (omega arith))
        (All-both (λ z. key z < key y) (λ z. key z < key x → P z) m below carried.1)

  one_answer : (l m : List A) → Same l m → Descending l → Descending m → l ≡ m
  one_answer [] [] same h k = refl
  one_answer [] (y ∷ m) same h k = absurd ((same.to (λ _. ⊥) tt).0)
  one_answer (x ∷ l) [] same h k = absurd ((same.back (λ _. ⊥) tt).0)
  one_answer (x ∷ l) (y ∷ m) same (hx, h) (ky, k) =
      let up =
        (same.to (λ z. key z ≤ key x) (omega arith, All-weaken l (λ z lt. omega arith) hx)).0 in
      let down =
        (same.back (λ z. key z ≤ key y) (omega arith, All-weaken m (λ z lt. omega arith) ky)).0 in
      let level : key x ≡ key y = omega arith in
      let e : y ≡ x =
        (same.to (λ z. key z ≡ key x → z ≡ x)
            (λ _. refl, All-weaken l (λ z lt eq. absurd (omega arith)) hx)).0
          (sym level) in
      let rest =
        one_answer l m
          (record {
            to = tails x y l m level same.to ky;
            back = tails y x m l (sym level) same.back hx;
          })
          h k in
      rw (e, rest) refl

  pub one_listing :
      (p : A → Bool) (t l : List A)
      → NoTies (filter p t)
      → IsListing key p t l
      → l ≡ find_many key p t
  one_listing p t l apart listed =
      let given = find_many-IsListing key p t in
      one_answer l (find_many key p t)
        (record {
          to = λ P h. All-permute P (Permᴰ.symm given.same_rows) (All-permute P listed.same_rows h);
          back =
              λ P h. All-permute P (Permᴰ.symm listed.same_rows) (All-permute P given.same_rows h);
        })
        (descending l listed.newest_first (NoTies-permute (Permᴰ.symm listed.same_rows) apart))
        (descending (find_many key p t) given.newest_first
          (NoTies-permute (Permᴰ.symm given.same_rows) apart))
