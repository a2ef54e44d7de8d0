-- ===== src/Prisma.antt =====
-- The query operations of the Prisma client (`@prisma/client`), which the repositories of
-- packages/database/src/repositories call. The client is not part of the repository, so its
-- operations are a parameter `db : Prisma` of the whole model; what the code relies on is
-- `IsPrisma`, the documented meaning of each operation over the rows of a table.
pub mod Table
pub mod Rows
pub mod Append
pub mod Listing
pub mod Sorted
pub mod Unique
use secure_auth_x_pro.Prelude.{ℕ, ◌≡◌, refl, sym, subst, Bool, Option, List, take, drop}
use secure_auth_x_pro.Prisma.Sorted.{IsListing, find_many-IsListing}

-- A table is the list of its rows, oldest first. A `where` object is a test on rows, a `data`
-- object a function on rows, and an `orderBy` a number for each row.
pub record Prisma : Type 1 where
  pub find_first : (A : Type 0) → (A → Bool) → List A → Option A
  pub find_many : (A : Type 0) → (A → ℕ) → (A → Bool) → List A → List A
  -- findMany with `skip` and `take`
  pub find_page : (A : Type 0) → (A → ℕ) → (A → Bool) → ℕ → ℕ → List A → List A
  pub create : (A : Type 0) → (A → Bool) → A → List A → Option (List A)
  pub update : (A : Type 0) → (A → Bool) → (A → A) → List A → Option (A × List A)
  pub update_many : (A : Type 0) → (A → Bool) → (A → A) → List A → ℕ × List A
  pub delete_many : (A : Type 0) → (A → Bool) → List A → List A
  pub count : (A : Type 0) → (A → Bool) → List A → ℕ

abbrev pub reference : Prisma
reference = record {
  find_first = λ A. Table.find_first;
  find_many = λ A. Table.find_many;
  find_page = λ A key p skip n t. take n (drop skip (Table.find_many key p t));
  create = λ A. Table.create;
  update = λ A. Table.update;
  update_many = λ A. Table.update_many;
  delete_many = λ A. Table.delete_many;
  count = λ A. Table.count;
}

-- The client answers each query as its documentation says, over rows and conditions whose values fit
-- the types of their columns: a list query gives the rows that meet the condition, in descending order
-- of the key, and rows of the same key in any order.
pub record IsPrisma (db : Prisma) : Type 1 where
  pub finds_first :
      (A : Type 0) (p : A → Bool) (t : List A) → db.find_first A p t ≡ Table.find_first p t
  pub finds_many :
      (A : Type 0) (key : A → ℕ) (p : A → Bool) (t : List A)
      → IsListing key p t (db.find_many A key p t)
  -- A page is cut from a listing, which two queries need not share.
  pub finds_page :
      (A : Type 0) (key : A → ℕ) (p : A → Bool) (skip n : ℕ) (t : List A)
      → (l : List A) × IsListing key p t l × (db.find_page A key p skip n t ≡ take n (drop skip l))
  pub creates :
      (A : Type 0) (clash : A → Bool) (a : A) (t : List A)
      → db.create A clash a t ≡ Table.create clash a t
  pub updates :
      (A : Type 0) (p : A → Bool) (f : A → A) (t : List A) → db.update A p f t ≡ Table.update p f t
  pub updates_many :
      (A : Type 0) (p : A → Bool) (f : A → A) (t : List A)
      → db.update_many A p f t ≡ Table.update_many p f t
  pub deletes_many :
      (A : Type 0) (p : A → Bool) (t : List A) → db.delete_many A p t ≡ Table.delete_many p t
  pub counts : (A : Type 0) (p : A → Bool) (t : List A) → db.count A p t ≡ Table.count p t

-- The reference operations, with the list queries of a client.
abbrev pub listing_as : Prisma → Prisma
listing_as db = record reference { find_many = db.find_many; find_page = db.find_page }

reference-eq : {db : Prisma} → IsPrisma db → listing_as db ≡ db
reference-eq {db} h = λ i. record {
  find_first = λ A p t. sym (h.finds_first A p t) i;
  find_many = db.find_many;
  find_page = db.find_page;
  create = λ A c a t. sym (h.creates A c a t) i;
  update = λ A p f t. sym (h.updates A p f t) i;
  update_many = λ A p f t. sym (h.updates_many A p f t) i;
  delete_many = λ A p t. sym (h.deletes_many A p t) i;
  count = λ A p t. sym (h.counts A p t) i;
}

-- What holds over these operations holds over the client.
pub at_client {ℓ} : (P : Prisma → Type ℓ) {db : Prisma} → IsPrisma db → P (listing_as db) → P db
at_client P h p = subst P (reference-eq h) p

pub listing_as-IsPrisma : {db : Prisma} → IsPrisma db → IsPrisma (listing_as db)
listing_as-IsPrisma h = record {
  finds_first = λ A p t. refl;
  finds_many = h.finds_many;
  finds_page = h.finds_page;
  creates = λ A c a t. refl;
  updates = λ A p f t. refl;
  updates_many = λ A p f t. refl;
  deletes_many = λ A p t. refl;
  counts = λ A p t. refl;
}

pub reference-IsPrisma : IsPrisma reference
reference-IsPrisma = record {
  finds_first = λ A p t. refl;
  finds_many = λ A key p t. find_many-IsListing key p t;
  finds_page = λ A key p skip n t. (Table.find_many key p t, find_many-IsListing key p t, refl);
  creates = λ A c a t. refl;
  updates = λ A p f t. refl;
  updates_many = λ A p f t. refl;
  deletes_many = λ A p t. refl;
  counts = λ A p t. refl;
}
