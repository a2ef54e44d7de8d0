-- ===== src/Admin/Listing/Pages.antt =====
-- The pages of a listing of users, put together.
use native.Mathlib.Nat.{suc-mul}
use mathlib.Core.List.{map-append}
use secure_auth_x_pro.Prelude.{
  ℕ, zero, suc, ◌+◌, ◌-◌, ◌*◌, ◌≤◌, ◌≡◌, refl, sym, ap, min, Option, some, List, [], ◌++◌, map,
  String, length, take, drop, take_all, filter, take-add, drop-drop, arith,
}
use secure_auth_x_pro.Schema.{Store, User, UserStatus}
use secure_auth_x_pro.Pagination.{whole, resolve_pagination, build_pagination_meta}
use secure_auth_x_pro.Pagination.Pages.{build_pagination_meta_lem}
use secure_auth_x_pro.Prisma.{Prisma, IsPrisma}
use secure_auth_x_pro.Prisma.Table.{find_many, count}
use secure_auth_x_pro.Prisma.Sorted.{find_many-IsListing, length-permute, length-filter}
use secure_auth_x_pro.Prisma.Unique.{NoTies, one_listing}
use secure_auth_x_pro.Exec.{Result, ok, err}
use secure_auth_x_pro.Repositories.Users.Listing.{is_listed, list, count_list}
use secure_auth_x_pro.Http.{non_empty}
use secure_auth_x_pro.Admin.Listing.{
  AdminUserRow, AdminUsersListResponse, UsersQuery, to_user_row, trimmed, list_users,
}

-- What a reader sees that reads so many pages, from a page on.
abbrev pub read_pages : {A : Type 0} → (ℕ → List A) → ℕ → ℕ → List A
read_pages read page zero = []
read_pages read page (suc n) = read page ++ read_pages read (suc page) n

abbrev pub items_of : Result AdminUsersListResponse → List AdminUserRow
items_of (ok r) = r.items
items_of (err e) = []

abbrev pub total_pages_of : Result AdminUsersListResponse → ℕ
total_pages_of (ok r) = r.meta.total_pages
total_pages_of (err e) = 0

module _ {A B : Type 0} (f : A → B) (size : ℕ) (xs : List A) where
  page_at : ℕ → List B
  page_at page = map f (take size (drop ((page - 1) * size) xs))

  one_more :
      (k n : ℕ)
      → map f (take (suc n * size) (drop (k * size) xs))
        ≡ page_at (suc k) ++ map f (take (n * size) (drop (suc k * size) xs))
  unfolding page_at
  one_more k n =
      let same : suc k - 1 ≡ k = omega arith in
      let next = drop-drop (k * size) size xs in
      let step : k * size + size ≡ suc k * size = grind arith in
      rw (same, suc-mul n size)
        (let comm : n * size + size ≡ size + n * size = omega arith in
          rw (comm, take-add size (n * size) (drop (k * size) xs), next, step) (map-append f _ _))

  no_pages : (ys : List A) → map f (take (0 * size) ys) ≡ []
  unfolding take
  no_pages ys = let none_taken : 0 * size ≡ 0 = omega arith in rw none_taken refl

  -- Pages of one size, counted from 1, are the rows up to the end of the last one.
  pages-take :
      (read : ℕ → List B)
      → ((k : ℕ) → read (suc k) ≡ page_at (suc k))
      → (n k : ℕ) → read_pages read (suc k) n ≡ map f (take (n * size) (drop (k * size) xs))
  pages-take read h zero k = sym (no_pages _)
  pages-take read h (suc n) k = rw (h k, pages-take read h n (suc k), one_more k n) refl

  pages-all :
      (read : ℕ → List B)
      → ((k : ℕ) → read (suc k) ≡ page_at (suc k))
      → (n : ℕ) → length xs ≤ n * size
      → read_pages read 1 n ≡ map f xs
  unfolding drop
  pages-all read h n enough =
      let first : 0 * size ≡ 0 = omega arith in
      rw (pages-take read h n 0, first, take_all (n * size) xs enough) refl

resolved :
    (k m : ℕ)
    → suc m ≤ 100
    → resolve_pagination (some (whole (suc k))) (some (whole (suc m)))
      ≡ record { page = suc k; page_size = suc m; skip = (suc k - 1) * suc m; take = suc m }
unfolding resolve_pagination
resolved k m h = let small : min (suc m) 100 ≡ suc m = omega arith in rw small refl

module _ (search : Option String) (status : Option UserStatus) where
  abbrev pub asked : ℕ → ℕ → UsersQuery
  asked size page = record {
    page = some (whole page);
    page_size = some (whole size);
    search = search;
    status = status;
  }

  -- The users that the condition of a query asks for, newest first.
  abbrev pub listed_users : Store → List User
  listed_users s =
      find_many (λ u. u.created_at) (is_listed (non_empty (trimmed search)) status) s.users

  -- What is seen on one page, and the number of pages that the first one tells.
  abbrev pub seen : Prisma → ℕ → Store → ℕ → List AdminUserRow
  seen db size s page = items_of (list_users db (asked size page) s).0

  abbrev pub told : Prisma → ℕ → Store → ℕ
  told db size s = total_pages_of (list_users db (asked size 1) s).0

  -- No two users that meet the condition were created at the same time.
  abbrev pub ApartInTime : Store → Type 0
  ApartInTime s =
      NoTies (λ u. u.created_at) (filter (is_listed (non_empty (trimmed search)) status) s.users)

  module _ {db : Prisma} (laws : IsPrisma db) (m : ℕ) (h : suc m ≤ 100) (s : Store)
      (apart : ApartInTime s) where
    abbrev total : ℕ
    total = count (is_listed (non_empty (trimmed search)) status) s.users

    page_of_users :
        (k : ℕ)
        → list_users db (asked (suc m) (suc k)) s ≡ (
          ok (record {
            items = page_at to_user_row (suc m) (listed_users s) (suc k);
            meta = build_pagination_meta (suc k) (suc m) total;
          }),
          s,
        )
    unfolding list_users list count_list page_at
    page_of_users k =
        let test = is_listed (non_empty (trimmed search)) status in
        let (l, listed, cut) =
          laws.finds_page User (λ u. u.created_at) test ((suc k - 1) * suc m) (suc m) s.users in
        let only = one_listing (λ u. u.created_at) test s.users l apart listed in
        rw (list_users, resolved k m h, list, count_list, cut, only, laws.counts) refl

    enough_pages :
        length (listed_users s) ≤ (build_pagination_meta 1 (suc m) total).total_pages * suc m
    enough_pages =
        let test = is_listed (non_empty (trimmed search)) status in
        let (all, _, _) = build_pagination_meta_lem 1 (suc m) total (omega arith) in
        let given = find_many-IsListing (λ u. u.created_at) test s.users in
        rw (length-permute given.same_rows, length-filter test s.users) all

    seen_all :
        read_pages (seen db (suc m) s) 1 (told db (suc m) s) ≡ map to_user_row (listed_users s)
    seen_all = rw (ap (λ r. total_pages_of r.0) (page_of_users 0)) (
        pages-all to_user_row (suc m) (listed_users s) (seen db (suc m) s)
          (λ k. ap (λ r. items_of r.0) (page_of_users k))
          (build_pagination_meta 1 (suc m) total).total_pages enough_pages)

-- An administrator who reads the pages from the first to the last that its totalPages tells, with one
-- page size from 1 to 100 and one condition, while no request changes the users, sees every user that
-- meets the condition exactly once, newest first, where no two of these users were created at the same
-- time. (Rows of one time come in any order, and in another one on the next page.)
pub list_users-read_pages :
    {db : Prisma}
    → IsPrisma db
    → (search : Option String) (status : Option UserStatus) (size : ℕ) (s : Store)
    → ApartInTime search status s
    → 1 ≤ size
    → size ≤ 100
    → read_pages (seen search status db size s) 1 (told search status db size s)
      ≡ map to_user_row (listed_users search status s)
list_users-read_pages laws search status zero s apart low high = absurd (omega arith)
list_users-read_pages laws search status (suc m) s apart low high =
    seen_all search status laws m high s apart
