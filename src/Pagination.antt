-- ===== src/Pagination.antt =====
-- app/utils/pagination.py, and `list` of app/repositories/base.py: pages of a listing.
pub mod Cover
use asset_pilot_fastapi.Prelude.{
  ◌%◌, ◌%◌, ◌+◌, ◌+◌, ◌/◌, length, ◌/◌, ◌==◌, ◌*◌, ◌*◌, ◌==◌, drop, ◌-◌, if◌then◌else◌, take, ◌-◌,
  ℕ, List,
}

-- The query parameters. The bounds of `Field` are not part of the type; `sort_by` and `sort_order`
-- choose the order of the rows that `list_page` is given.
pub record PaginationParams : Type 0 where
  pub page : ℕ
  pub page_size : ℕ

-- `page` is at least 1, where the subtraction is that of the integers.
unfoldable pub offset : PaginationParams → ℕ
offset p = (p.page - 1) * p.page_size

unfoldable pub limit : PaginationParams → ℕ
limit p = p.page_size

pub record Page {ℓ} (A : Type ℓ) : Type ℓ where
  pub items : List A
  pub total_items : ℕ
  pub page : ℕ
  pub page_size : ℕ

-- `-(-total_items // page_size)`: Python rounds the negative quotient down, so this one up.
unfoldable pub total_pages {ℓ} : {A : Type ℓ} → Page A → ℕ
total_pages p =
    if p.page_size == 0
    then 0
    else p.total_items / p.page_size + (if p.total_items % p.page_size == 0 then 0 else 1)

-- A page of the rows that a query selects, in the order that it selects them.
unfoldable pub list_page {ℓ} : {A : Type ℓ} → PaginationParams → List A → Page A
unfolding offset limit
list_page p rows = record {
  items = take (limit p) (drop (offset p) rows);
  total_items = length rows;
  page = p.page;
  page_size = p.page_size;
}
