-- ===== src/Views.antt =====
-- The read methods of app/services/ and the dataclasses that they return. A class that extends another
-- has its fields as `base`.
pub mod Requests
pub mod ItemResults
pub mod Items
pub mod Queues
pub mod Tickets
pub mod Extensions
pub mod People
pub mod Dashboard
use asset_pilot_fastapi.Pagination.{Page}
use asset_pilot_fastapi.Prelude.{map, none, some, true, false}

-- `Page(items=[f(row) for row in page.items], total_items=..., page=..., page_size=...)`
unfoldable pub page_of {ℓ κ} : {A : Type ℓ} {B : Type κ} → (A → B) → Page A → Page B
page_of f p = record {
  items = map f p.items;
  total_items = p.total_items;
  page = p.page;
  page_size = p.page_size;
}
