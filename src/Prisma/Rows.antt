-- ===== src/Prisma/Rows.antt =====
-- What a query finds after a write, over the rows of one table.
use secure_auth_x_pro.Prelude.{
  String, ◌==◌, eq_iff, eq_refl, ◌≡◌, refl, ap, Bool, true, false, none, some, List, [], ◌∷◌, ◌++◌,
  arith, any, All, All-weaken, if◌then◌else◌, Bool-cases, inl, inr,
}
use secure_auth_x_pro.Prisma.Table.{
  find_first, set_first, set_all, delete_many, count, create, update,
}

module _ {ℓ} {A : Type ℓ} where
  pub find_first-holds : (p : A → Bool) (t : List A) {a : A} → find_first p t ≡ some a → p a ≡ true
  unfolding find_first
  find_first-holds p [] h = cc
  find_first-holds p (b ∷ t) h = elim (Bool-cases (p b)) [
    | inl here ↦ ground arith
    | inr there ↦ find_first-holds p t (rw there at h)
  ]

  -- The row that was rewritten is found again, where the rewriting keeps it found.
  pub find_first-set_first :
      (p : A → Bool) (f : A → A) (t : List A) {a : A}
      → find_first p t ≡ some a
      → p (f a) ≡ true
      → find_first p (set_first p f t) ≡ some (f a)
  unfolding find_first set_first
  find_first-set_first p f [] h kept = cc
  find_first-set_first p f (b ∷ t) {a} h kept = elim (Bool-cases (p b)) [
    | inl here ↦ ground arith
    | inr there ↦ rw (there, there) (find_first-set_first p f t (rw there at h) kept)
  ]

  pub find_first-none :
      (p : A → Bool) (t : List A) → All (λ x. p x ≡ false) t → find_first p t ≡ none
  unfolding find_first
  find_first-none p [] h = refl
  find_first-none p (b ∷ t) (hb, h) = rw hb (find_first-none p t h)

  -- A query none of whose rows change finds the same row.
  pub find_first-set_all :
      (q p : A → Bool) (f : A → A) (t : List A) {a : A}
      → ((x : A) → p x ≡ true → q (f x) ≡ q x)
      → find_first q t ≡ some a
      → find_first q (set_all p f t) ≡ some (if p a then f a else a)
  unfolding find_first set_all
  find_first-set_all q p f [] h found = cc
  find_first-set_all q p f (b ∷ t) h found = elim (Bool-cases (q b)) [
    | inl here ↦ ground (arith, h b)
    | inr there ↦ ground (arith, h b, find_first-set_all q p f t h (rw there at found))
  ]

  pub set_all-All :
      (p : A → Bool) (f : A → A) (t : List A)
      → ((x : A) → p (f x) ≡ false)
      → All (λ x. p x ≡ false) (set_all p f t)
  unfolding set_all
  set_all-All p f [] h = tt
  set_all-All p f (b ∷ t) h = (ground (arith, h b), set_all-All p f t h)

  pub delete_many-All : (p : A → Bool) (t : List A) → All (λ x. p x ≡ false) (delete_many p t)
  unfolding delete_many
  delete_many-All p [] = tt
  delete_many-All p (b ∷ t) = elim (Bool-cases (p b)) [
    | inl here ↦ rw here (delete_many-All p t)
    | inr there ↦ rw there (there, delete_many-All p t)
  ]

  pub count-none : (p : A → Bool) (t : List A) → All (λ x. p x ≡ false) t → count p t ≡ 0
  unfolding count
  count-none p [] h = refl
  count-none p (b ∷ t) (hb, h) = ground (arith, count-none p t h)

  any-never : (t : List A) → any (λ _. false) t ≡ false
  any-never [] = refl
  any-never (b ∷ t) = any-never t

  -- A table without unique columns takes every row.
  pub create-any : (a : A) (t : List A) → create (λ _. false) a t ≡ some (t ++ a ∷ [])
  unfolding create
  create-any a t = rw (any-never t)

  pub update-found :
      (p : A → Bool) (f : A → A) (t : List A) {a : A}
      → find_first p t ≡ some a
      → update p f t ≡ some (f a, set_first p f t)
  unfolding update
  update-found p f t h = rw (h, update)

-- A unique column: no two rows have the same key.
abbrev pub Distinct {ℓ} : {A : Type ℓ} → (A → String) → List A → Type 0
Distinct key [] = Unit
Distinct key (a ∷ t) = All (λ x. (key x == key a) ≡ false) t × Distinct key t

module _ {ℓ} {A : Type ℓ} where
  pub All-find_first :
      (q p : A → Bool) (t : List A) {a : A}
      → All (λ x. p x ≡ false) t
      → find_first q t ≡ some a
      → p a ≡ false
  unfolding find_first
  All-find_first q p [] h found = cc
  All-find_first q p (b ∷ t) (hb, h) found = elim (Bool-cases (q b)) [
    | inl here ↦ ground arith
    | inr there ↦ All-find_first q p t h (rw there at found)
  ]

  -- The row that some query finds is the one that its key finds.
  pub find_first-key :
      (key : A → String) (q : A → Bool) (t : List A) {a : A}
      → Distinct key t
      → find_first q t ≡ some a
      → find_first (λ x. key x == key a) t ≡ some a
  unfolding find_first
  find_first-key key q [] d found = cc
  find_first-key key q (b ∷ t) {a} (apart, d) found = elim (Bool-cases (q b)) [
    | inl here ↦
        let same : b ≡ a = ground arith in
        let found_here : (key b == key a) ≡ true = rw (same, eq_refl) in
        rw found_here (ap some same)
    | inr there ↦
        let later = rw there at found in
        let apart_here : (key b == key a) ≡ false = ground (
          arith,
          eq_iff (key a) (key b),
          eq_iff (key b) (key a),
          All-find_first q (λ x. key x == key b) t apart later,
        ) in
        rw apart_here (find_first-key key q t d later)
  ]

  -- Once the row of a key is rewritten out of a query about that key, the query finds nothing.
  pub find_first-written :
      (key : A → String) (q : A → Bool) (f : A → A) (k : String) (t : List A)
      → Distinct key t
      → ((x : A) → (key x == k) ≡ false → q x ≡ false)
      → ((x : A) → q (f x) ≡ false)
      → All (λ x. q x ≡ false) (set_first (λ x. key x == k) f t)
  unfolding set_first
  find_first-written key q f k [] d about out = tt
  find_first-written key q f k (b ∷ t) (apart, d) about out = elim (Bool-cases (key b == k)) [
    | inl here ↦
        let same : key b ≡ k = ground (arith, eq_iff (key b) k) in
        rw here (out b, All-weaken t (λ x h. about x (rw same at h)) apart)
    | inr there ↦ rw there (about b there, find_first-written key q f k t d about out)
  ]

  -- A query that a rewriting does not affect finds the rewritten row again.
  pub find_first-rewritten :
      (key : A → String) (q : A → Bool) (f : A → A) (t : List A) {a : A}
      → Distinct key t
      → ((x : A) → q (f x) ≡ q x)
      → find_first q t ≡ some a
      → find_first q (set_first (λ x. key x == key a) f t) ≡ some (f a)
  unfolding find_first set_first
  find_first-rewritten key q f [] d same found = cc
  find_first-rewritten key q f (b ∷ t) {a} (apart, d) same found = elim (Bool-cases (q b)) [
    | inl here ↦
        let first : b ≡ a = ground arith in
        let found_here : (key b == key a) ≡ true = rw (first, eq_refl) in
        rw (found_here, same b, here) (ap (λ x. some (f x)) first)
    | inr there ↦
        let later = rw there at found in
        let apart_here : (key b == key a) ≡ false = ground (
          arith,
          eq_iff (key a) (key b),
          eq_iff (key b) (key a),
          All-find_first q (λ x. key x == key b) t apart later,
        ) in
        rw (apart_here, there) (find_first-rewritten key q f t d same later)
  ]

  set_first-apart :
      (key : A → String) (p : A → Bool) (f : A → A) (t : List A)
      → ((x : A) → key (f x) ≡ key x)
      → (k : String) → All (λ x. (key x == k) ≡ false) t
      → All (λ x. (key x == k) ≡ false) (set_first p f t)
  unfolding set_first
  set_first-apart key p f [] same k h = tt
  set_first-apart key p f (b ∷ t) same k (hb, h) = elim (Bool-cases (p b)) [
    | inl here ↦ rw here (rw (same b) hb, h)
    | inr there ↦ rw there (hb, set_first-apart key p f t same k h)
  ]

  pub set_first-Distinct :
      (key : A → String) (p : A → Bool) (f : A → A) (t : List A)
      → ((x : A) → key (f x) ≡ key x)
      → Distinct key t
      → Distinct key (set_first p f t)
  unfolding set_first
  set_first-Distinct key p f [] same d = tt
  set_first-Distinct key p f (b ∷ t) same (apart, d) = elim (Bool-cases (p b)) [
    | inl here ↦ rw here (All-weaken t (λ x h. rw (same b) h) apart, d)
    | inr there ↦
        rw there (set_first-apart key p f t same (key b) apart, set_first-Distinct key p f t same d)
  ]

  set_all-apart :
      (key : A → String) (p : A → Bool) (f : A → A) (t : List A) (k : String)
      → ((x : A) → key (f x) ≡ key x)
      → All (λ x. (key x == k) ≡ false) t
      → All (λ x. (key x == k) ≡ false) (set_all p f t)
  unfolding set_all
  set_all-apart key p f [] k same h = tt
  set_all-apart key p f (b ∷ t) k same (hb, h) =
      (ground (arith, same b), set_all-apart key p f t k same h)

  pub set_all-Distinct :
      (key : A → String) (p : A → Bool) (f : A → A) (t : List A)
      → ((x : A) → key (f x) ≡ key x)
      → Distinct key t
      → Distinct key (set_all p f t)
  unfolding set_all
  set_all-Distinct key p f [] same d = tt
  set_all-Distinct key p f (b ∷ t) same (apart, d) = elim (Bool-cases (p b)) [
    | inl here ↦
        rw (here, same b)
          (set_all-apart key p f t (key b) same apart, set_all-Distinct key p f t same d)
    | inr there ↦
        rw there (set_all-apart key p f t (key b) same apart, set_all-Distinct key p f t same d)
  ]
