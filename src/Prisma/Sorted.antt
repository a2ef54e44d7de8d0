-- ===== src/Prisma/Sorted.antt =====
-- What a list query gives: the rows that meet its test, newest first.
use mathlib.Core.List.{Permᴰ}
use mathlib.Core.List.Permᴰ
use secure_auth_x_pro.Prelude.{
  ℕ, zero, suc, ◌≤◌, ◌≡◌, refl, ap, ◌∙◌, subst, Bool, true, List, [], ◌∷◌, length, filter, All,
  All-weaken, All-take, take, drop, leb, Bool-cases, inl, inr, arith,
}
use secure_auth_x_pro.Prisma.Table.{find_many, insert_desc, count}

module _ {A : Type 0} where
  -- What holds of all rows of a list holds of all rows of a permutation.
  pub All-permute {κ} : (P : A → Type κ) {l m : List A} → Permᴰ l m → All P l → All P m
  All-permute P Permᴰ.nil h = tt
  All-permute P (Permᴰ.cons e d) (ha, h) = (subst P e ha, All-permute P d h)
  All-permute P (Permᴰ.swap e f) (ha, (hb, h)) = (subst P f hb, (subst P e ha, h))
  All-permute P (Permᴰ.trans d e) h = All-permute P e (All-permute P d h)

  pub length-permute : {l m : List A} → Permᴰ l m → length l ≡ length m
  length-permute Permᴰ.nil = refl
  length-permute (Permᴰ.cons e d) = ap suc (length-permute d)
  length-permute (Permᴰ.swap e f) = refl
  length-permute (Permᴰ.trans d e) = length-permute d ∙ length-permute e

  module _ (p : A → Bool) where
    pub filter-Meets : (t : List A) → All (λ x. p x ≡ true) (filter p t)
    filter-Meets [] = tt
    filter-Meets (b ∷ t) = elim (Bool-cases (p b)) [
      | inl here ↦ rw here (here, filter-Meets t)
      | inr there ↦ rw there (filter-Meets t)
    ]

    pub length-filter : (t : List A) → length (filter p t) ≡ count p t
    unfolding count
    length-filter [] = refl
    length-filter (b ∷ t) = ground (arith, length-filter t)

    pub filter-All {κ} : (P : A → Type κ) (t : List A) → All P t → All P (filter p t)
    filter-All P [] h = tt
    filter-All P (b ∷ t) (hb, h) = elim (Bool-cases (p b)) [
      | inl here ↦ rw here (hb, filter-All P t h)
      | inr there ↦ rw there (filter-All P t h)
    ]

module _ {A : Type 0} (key : A → ℕ) where
  -- No row is newer than one before it.
  abbrev pub NewestFirst : List A → Type 0
  NewestFirst [] = Unit
  NewestFirst (x ∷ xs) = All (λ y. key y ≤ key x) xs × NewestFirst xs

  -- A list that a query with this test and order may give.
  pub record IsListing (p : A → Bool) (t l : List A) : Type 0 where
    pub same_rows : Permᴰ l (filter p t)
    pub newest_first : NewestFirst l

  -- What holds of all rows that meet the test holds of those of a listing.
  pub All-listed {κ} :
      (P : A → Type κ) {p : A → Bool} {t l : List A}
      → IsListing p t l
      → All P (filter p t)
      → All P l
  All-listed P listed h = All-permute P (Permᴰ.symm listed.same_rows) h

  insert_desc-permute : (a : A) (t : List A) → Permᴰ (insert_desc key a t) (a ∷ t)
  unfolding insert_desc
  insert_desc-permute a [] = Permᴰ.refl _
  insert_desc-permute a (b ∷ t) = elim (Bool-cases (leb (key b) (key a))) [
    | inl first ↦ rw first (Permᴰ.refl (a ∷ b ∷ t))
    | inr later ↦
        rw later (Permᴰ.trans (Permᴰ.cons refl (insert_desc-permute a t)) (Permᴰ.swap refl refl))
  ]

  insert_desc-NewestFirst : (a : A) (t : List A) → NewestFirst t → NewestFirst (insert_desc key a t)
  unfolding insert_desc
  insert_desc-NewestFirst a [] h = (tt, tt)
  insert_desc-NewestFirst a (b ∷ t) (hb, h) = elim (Bool-cases (leb (key b) (key a))) [
    | inl first ↦
        let newer : key b ≤ key a = ground arith in
        rw first ((newer, All-weaken t (λ y older. omega arith) hb), (hb, h))
    | inr later ↦
        let newer : key a ≤ key b = ground arith in
        rw later (
          All-permute (λ y. key y ≤ key b) (Permᴰ.symm (insert_desc-permute a t)) (newer, hb),
          insert_desc-NewestFirst a t h,
        )
  ]

  find_many-permute : (p : A → Bool) (t : List A) → Permᴰ (find_many key p t) (filter p t)
  unfolding find_many
  find_many-permute p [] = Permᴰ.nil
  find_many-permute p (b ∷ t) = elim (Bool-cases (p b)) [
    | inl here ↦ rw here (
        Permᴰ.trans (insert_desc-permute b (find_many key p t))
          (Permᴰ.cons refl (find_many-permute p t)))
    | inr there ↦ rw there (find_many-permute p t)
  ]

  find_many-NewestFirst : (p : A → Bool) (t : List A) → NewestFirst (find_many key p t)
  unfolding find_many
  find_many-NewestFirst p [] = tt
  find_many-NewestFirst p (b ∷ t) = elim (Bool-cases (p b)) [
    | inl here ↦ rw here (insert_desc-NewestFirst b (find_many key p t) (find_many-NewestFirst p t))
    | inr there ↦ rw there (find_many-NewestFirst p t)
  ]

  pub find_many-IsListing : (p : A → Bool) (t : List A) → IsListing p t (find_many key p t)
  find_many-IsListing p t = record {
    same_rows = find_many-permute p t;
    newest_first = find_many-NewestFirst p t;
  }

  pub take-NewestFirst : (n : ℕ) (xs : List A) → NewestFirst xs → NewestFirst (take n xs)
  unfolding take
  take-NewestFirst zero xs h = tt
  take-NewestFirst (suc n) [] h = tt
  take-NewestFirst (suc n) (x ∷ xs) (hx, h) =
      (All-take (λ y. key y ≤ key x) n xs hx, take-NewestFirst n xs h)

  pub drop-NewestFirst : (n : ℕ) (xs : List A) → NewestFirst xs → NewestFirst (drop n xs)
  unfolding drop
  drop-NewestFirst zero xs h = h
  drop-NewestFirst (suc n) [] h = tt
  drop-NewestFirst (suc n) (x ∷ xs) (hx, h) = drop-NewestFirst n xs h
