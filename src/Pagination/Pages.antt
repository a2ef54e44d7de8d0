-- ===== src/Pagination/Pages.antt =====
-- The pages of a list, as admin.service.ts asks for them.
use native.Mathlib.Nat.{div-add-mod, mod-lt, mul_comm, mul-le-mul_right, suc-mul}
use secure_auth_x_pro.Prelude.{
  ℕ, zero, suc, ◌+◌, ◌-◌, ◌*◌, ◌≤◌, ◌<◌, ◌≡◌, refl, ◌↔◌, ◌⊎◌, true, Option, arith, inl, inr,
  Bool-cases, ltb, ltb→lt, ltb→le,
}
use secure_auth_x_pro.Pagination.{
  JsNumber, whole, below_zero, other, positive, given, ceil_div, resolve_pagination,
  build_pagination_meta, page_of, page_size_of, default_page, default_page_size,
}

page_bounds : (n : JsNumber) → 1 ≤ page_of (positive n)
page_bounds (whole zero) = omega arith
page_bounds (whole (suc n)) = omega arith
page_bounds (below_zero n) = omega arith
page_bounds other = omega arith

page_size_bounds :
    (n : JsNumber) → (1 ≤ page_size_of (positive n)) × (page_size_of (positive n) ≤ 100)
page_size_bounds (whole zero) = omega arith
page_size_bounds (whole (suc n)) = omega arith
page_size_bounds (below_zero n) = omega arith
page_size_bounds other = omega arith

skip-take : (page size : ℕ) → 1 ≤ page → (page - 1) * size + size ≡ page * size
skip-take zero size h = elim h [ ]
skip-take (suc n) size h = grind arith

-- Whatever the query holds, the page is at least 1, a page has 1 to 100 rows, `take` is the page
-- size, and the rows skipped and taken together are those of the first `page` pages.
pub resolve_pagination_bounds :
    (page size : Option JsNumber)
    → let r = resolve_pagination page size in
      (1 ≤ r.page)
      × (1 ≤ r.page_size)
      × (r.page_size ≤ 100)
      × (r.take ≡ r.page_size)
      × (r.skip + r.take ≡ r.page * r.page_size)
unfolding resolve_pagination
resolve_pagination_bounds page size =
    let p = page_bounds (given page default_page) in
    let (low, high) = page_size_bounds (given size default_page_size) in
    (p, low, high, refl, skip-take _ _ p)

ceil_div_bounds : (n d : ℕ) → 1 ≤ d → (n ≤ ceil_div n d * d) × (ceil_div n d * d ≤ n + (d - 1))
ceil_div_bounds n d h =
    let split = div-add-mod (n + (d - 1)) d in
    let low = mod-lt (n + (d - 1)) {m = d} h in
    let flip = mul_comm d (ceil_div n d) in (omega arith, omega arith)

next-page_iff :
    (page size n q : ℕ)
    → 1 ≤ size
    → n ≤ q * size
    → q * size ≤ n + (size - 1)
    → (ltb page q ≡ true) ↔ (page * size < n)
next-page_iff page size n q h low high = (
  λ next.
      let more = mul-le-mul_right {m = suc page} {n = q} size (ltb→lt page q next) in
      let step = suc-mul page size in omega arith,
  λ items. elim (Bool-cases (ltb page q)) [
    | inl next ↦ next
    | inr last ↦
        let most = mul-le-mul_right {m = q} {n = page} size (ltb→le page q last) in
        absurd (omega arith)
  ],
)

one_fewer :
    (size n q : ℕ)
    → 1 ≤ size
    → suc n ≤ q * size
    → q * size ≤ suc n + (size - 1)
    → (q - 1) * size < suc n
one_fewer size n zero h low high = omega arith
one_fewer size n (suc q) h low high =
    let step = suc-mul q size in let same : suc q - 1 ≡ q = omega arith in rw same (omega arith)

-- For a positive page size, `totalPages` pages hold all the items, one page fewer does not (unless
-- there are no items), and there is a next page exactly when items remain after this one.
pub build_pagination_meta_lem :
    (page size total : ℕ)
    → 1 ≤ size
    → let m = build_pagination_meta page size total in
      (total ≤ m.total_pages * size)
      × ((total ≡ 0) ⊎ ((m.total_pages - 1) * size < total))
      × ((m.has_next_page ≡ true) ↔ (page * size < total))
unfolding build_pagination_meta
build_pagination_meta_lem page size zero h =
    (omega arith, inl refl, next-page_iff page size 0 0 h (omega arith) (omega arith))
build_pagination_meta_lem page size (suc n) h =
    let (low, high) = ceil_div_bounds (suc n) size h in
    (
      low,
      inr (one_fewer size n (ceil_div (suc n) size) h low high),
      next-page_iff page size (suc n) (ceil_div (suc n) size) h low high,
    )
