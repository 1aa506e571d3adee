-- ===== src/Examples/Pagination.antt =====
-- The theorem on pages, applied.
use asset_pilot_fastapi.Pagination.{list_page, total_pages, PaginationParams}
use asset_pilot_fastapi.Pagination.Cover.{pages_cover, first_pages}
use asset_pilot_fastapi.Prelude.{
  arith, ◌≤◌, ◌≤◌, ◌+◌, ◌+◌, length, ◌<◌, ◌<◌, refl, ◌*◌, ◌*◌, ◌≡◌, ◌≡◌, List, ℕ, ◌∷◌, [],
}

abbrev second : PaginationParams
second = record { page = 2; page_size = 2 }

abbrev rows : List ℕ
rows = 3 ∷ 1 ∷ 4 ∷ 1 ∷ 5 ∷ []

pages_cover_example :
    (first_pages 2 (total_pages (list_page second rows)) rows ≡ rows)
    × (total_pages (list_page second rows) * 2 < length rows + 2)
    × (length (list_page second rows).items ≤ 2)
pages_cover_example = pages_cover second rows (omega arith)

-- Three pages, the last of which has one row.
three_pages : total_pages (list_page second rows) ≡ 3
unfolding total_pages list_page
three_pages = refl
