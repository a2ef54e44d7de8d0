-- ===== src/Pagination.antt =====
-- packages/shared/src/pagination.ts
pub mod Pages
use secure_auth_x_pro.Prelude.{
  ℕ, zero, suc, ◌+◌, ◌-◌, ◌*◌, ◌/◌, min, Bool, Option, none, some, ltb, is_zero, if◌then◌else◌,
}

-- A JavaScript number: an integer, from 0 up or below 0, or another number (a fraction, NaN).
pub data JsNumber : Type 0 where
  whole : ℕ → JsNumber
  below_zero : ℕ → JsNumber
  other : JsNumber

abbrev pub default_page : ℕ
default_page = 1

abbrev pub default_page_size : ℕ
default_page_size = 20

abbrev pub max_page_size : ℕ
max_page_size = 100

-- `Number.isInteger(raw) && raw > 0`
abbrev pub positive : JsNumber → Option ℕ
positive (whole (suc n)) = some (suc n)
positive _ = none

-- `query.page ?? default`
abbrev pub given : Option JsNumber → ℕ → JsNumber
given none n = whole n
given (some raw) n = raw

pub record ResolvedPagination : Type 0 where
  pub page : ℕ
  pub page_size : ℕ
  pub skip : ℕ
  pub take : ℕ

abbrev page_of : Option ℕ → ℕ
page_of none = default_page
page_of (some n) = n

abbrev page_size_of : Option ℕ → ℕ
page_size_of none = default_page_size
page_size_of (some n) = min n max_page_size

unfoldable pub resolve_pagination : Option JsNumber → Option JsNumber → ResolvedPagination
resolve_pagination raw_page raw_page_size =
    let page = page_of (positive (given raw_page default_page)) in
    let page_size = page_size_of (positive (given raw_page_size default_page_size)) in
    record { page = page; page_size = page_size; skip = (page - 1) * page_size; take = page_size }

pub record PaginationMeta : Type 0 where
  pub page : ℕ
  pub page_size : ℕ
  pub total_items : ℕ
  pub total_pages : ℕ
  pub has_next_page : Bool
  pub has_previous_page : Bool

-- `Math.ceil(n / d)` for a positive `d`
abbrev pub ceil_div : ℕ → ℕ → ℕ
ceil_div n d = (n + (d - 1)) / d

unfoldable pub build_pagination_meta : ℕ → ℕ → ℕ → PaginationMeta
build_pagination_meta page page_size total_items =
    let total_pages = if is_zero total_items then 0 else ceil_div total_items page_size in
    record {
      page = page;
      page_size = page_size;
      total_items = total_items;
      total_pages = total_pages;
      has_next_page = ltb page total_pages;
      has_previous_page = ltb 1 page;
    }
