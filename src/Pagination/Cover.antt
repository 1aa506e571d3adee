-- ===== src/Pagination/Cover.antt =====
-- The pages of a listing, put together.
use native.Mathlib.Numerals.{unary_clauses}
use native.Mathlib.Nat.{mul_comm, mul-suc}
use native.Mathlib.Nat.{div-add-mod, mod-lt}
use asset_pilot_fastapi.Pagination.{drop, limit, offset, PaginationParams, list_page, total_pages}
use asset_pilot_fastapi.Prelude.{
  sym, length-take, ◌∙◌, ◌-◌, ◌/◌, ap, ◌∙◌, arith, refl, zero, ◌<◌, ◌∷◌, ◌<◌, ◌*◌, ◌≡◌, ◌++◌, ◌≡◌,
  ◌++◌, ◌≤◌, ◌+◌, ◌≤◌, suc, [], take, length, ℕ, List,
}

-- The first pages, one after another.
unfoldable pub first_pages {ℓ} : {A : Type ℓ} → ℕ → ℕ → List A → List A
first_pages page_size zero rows = []
first_pages page_size (suc n) rows =
    first_pages page_size n rows
    ++ (list_page (record { page = suc n; page_size = page_size }) rows).items

take_add {ℓ} :
    {A : Type ℓ} (m n : ℕ) (xs : List A) → take (m + n) xs ≡ take m xs ++ take n (drop m xs)
take_add zero n xs = let nothing : 0 + n ≡ n = omega arith in ap (λ (k : ℕ). take k xs) nothing
take_add (suc m) zero [] = simp unary_clauses refl
take_add (suc m) (suc n) [] = simp unary_clauses refl
take_add (suc m) n (x ∷ xs) =
    let out : suc m + n ≡ suc (m + n) = omega arith in
    ap (λ (k : ℕ). take k (x ∷ xs)) out ∙ ap (◌∷◌ x) (take_add m n xs)

take_all {ℓ} : {A : Type ℓ} (m : ℕ) (xs : List A) → length xs ≤ m → take m xs ≡ xs
take_all zero [] h = refl
take_all (suc m) [] h = refl
take_all zero (x ∷ xs) h = ground arith
take_all (suc m) (x ∷ xs) h = ap (◌∷◌ x) (take_all m xs (omega arith))

first_pages-take {ℓ} :
    {A : Type ℓ} (page_size n : ℕ) (rows : List A)
    → first_pages page_size n rows ≡ take (n * page_size) rows
unfolding first_pages list_page offset limit
first_pages-take page_size zero rows =
    let nothing : 0 * page_size ≡ 0 = omega arith in ap (λ (k : ℕ). take k rows) (sym nothing)
first_pages-take page_size (suc n) rows =
    let before : (suc n - 1) ≡ n = omega arith in
    let more : suc n * page_size ≡ n * page_size + page_size =
      mul_comm (suc n) page_size
      ∙ mul-suc page_size n
      ∙ ap (λ (k : ℕ). k + page_size) (mul_comm page_size n) in
    rw (before, more, first_pages-take page_size n rows)
      (sym (take_add (n * page_size) page_size rows))

-- The page count is enough for all rows, and with a page less some row would be left out.
total_pages-least {ℓ} :
    {A : Type ℓ} (p : PaginationParams) (rows : List A)
    → 1 ≤ p.page_size
    → (length rows ≤ total_pages (list_page p rows) * p.page_size)
      × (total_pages (list_page p rows) * p.page_size < length rows + p.page_size)
unfolding total_pages list_page
total_pages-least p rows h =
    let s = p.page_size in
    let q = length rows / s in
    let whole = div-add-mod (length rows) s in
    let rest = mod-lt (length rows) {m = s} h in
    ground (arith, whole, rest, mul_comm (q + 1) s, mul_comm (q + 0) s, mul-suc s q)

-- With a page size of at least one, the pages from the first to the last that the page count names, one after another, are the rows of the query: each once and in order; the page count is the least for which this can hold, and no page is longer than the page size.
pub pages_cover {ℓ} :
    {A : Type ℓ} (p : PaginationParams) (rows : List A)
    → 1 ≤ p.page_size
    → (first_pages p.page_size (total_pages (list_page p rows)) rows ≡ rows)
      × (total_pages (list_page p rows) * p.page_size < length rows + p.page_size)
      × (length (list_page p rows).items ≤ p.page_size)
unfolding list_page limit
pages_cover p rows h =
    let (enough, least) = total_pages-least p rows h in
    let pages = total_pages (list_page p rows) in
    (
      first_pages-take p.page_size pages rows ∙ take_all (pages * p.page_size) rows enough,
      least,
      omega (arith, length-take p.page_size (drop (offset p) rows)),
    )
