-- ===== src/Prisma/Table.antt =====
-- The documented meaning of the client's operations on the rows of one table.
use secure_auth_x_pro.Prelude.{
  ℕ, ◌+◌, Bool, Option, none, some, List, [], ◌∷◌, ◌++◌, map, leb, any, if◌then◌else◌,
}

module _ {ℓ} {A : Type ℓ} where
  -- findUnique, findFirst: the first row that meets the test, or null.
  unfoldable pub find_first : (A → Bool) → List A → Option A
  find_first p [] = none
  find_first p (a ∷ t) = if p a then some a else find_first p t

  unfoldable pub insert_desc : (A → ℕ) → A → List A → List A
  insert_desc key a [] = a ∷ []
  insert_desc key a (b ∷ t) = if leb (key b) (key a) then a ∷ b ∷ t else b ∷ insert_desc key a t

  -- findMany with `orderBy: { key: 'desc' }`.
  unfoldable pub find_many : (A → ℕ) → (A → Bool) → List A → List A
  unfolding insert_desc
  find_many key p [] = []
  find_many key p (a ∷ t) = if p a then insert_desc key a (find_many key p t) else find_many key p t

  -- create: refused (null here, an exception there) if a row clashes on a unique column.
  unfoldable pub create : (A → Bool) → A → List A → Option (List A)
  create clash a t = if any clash t then none else some (t ++ a ∷ [])

  -- The first row that meets the test, rewritten.
  unfoldable pub set_first : (A → Bool) → (A → A) → List A → List A
  set_first p f [] = []
  set_first p f (a ∷ t) = if p a then f a ∷ t else a ∷ set_first p f t

  -- update on a unique `where`: the row as written, or an exception if there is none.
  unfoldable pub update : (A → Bool) → (A → A) → List A → Option (A × List A)
  unfolding find_first set_first
  update p f t = elim (find_first p t) [ none ↦ none | some a ↦ some (f a, set_first p f t) ]

  unfoldable pub count : (A → Bool) → List A → ℕ
  count p [] = 0
  count p (a ∷ t) = (if p a then 1 else 0) + count p t

  unfoldable pub set_all : (A → Bool) → (A → A) → List A → List A
  set_all p f t = map (λ a. if p a then f a else a) t

  -- updateMany: how many rows met the test, and the rows with those rewritten.
  unfoldable pub update_many : (A → Bool) → (A → A) → List A → ℕ × List A
  unfolding count set_all
  update_many p f t = (count p t, set_all p f t)

  -- deleteMany
  unfoldable pub delete_many : (A → Bool) → List A → List A
  delete_many p [] = []
  delete_many p (a ∷ t) = let rest = delete_many p t in if p a then rest else a ∷ rest
