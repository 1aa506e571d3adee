-- ===== src/Repositories/Queries/Laws.antt =====
-- What a query finds, and how much of it.
use asset_pilot_fastapi.Pagination.{offset, limit, PaginationParams, list_page}
use asset_pilot_fastapi.Views.{page_of}
use asset_pilot_fastapi.Table.Laws.{find_of_any}
use asset_pilot_fastapi.Table.{HasUniqueKeys}
use asset_pilot_fastapi.Repositories.Queries.{find, order_by, insert_ordered, join}
use asset_pilot_fastapi.Prelude.{
  zero, drop, take, inr, sym, inl, Bool-cases, true, ℕ, refl, [], ◌&&◌, ◌∙◌, ◌||◌, ◌≤◌, ap, ◌≤◌,
  suc, ◌&&◌, arith, ◌∙◌, ◌∷◌, filter, map, ◌≡◌, length, any, ◌≡◌, Bool, List, Option, false, none,
  some,
}

-- Whether a row that may be missing is there and passes a test.
abbrev pub passes {ℓ} : {A : Type ℓ} → (A → Bool) → Option A → Bool
passes p none = false
passes p (some a) = p a

module _ {ℓ} {A : Type ℓ} (p : A → Bool) where
  any-insert_ordered :
      (after : A → A → Bool) (x : A) (ys : List A)
      → any p (insert_ordered after x ys) ≡ (p x || any p ys)
  any-insert_ordered after x [] = refl
  any-insert_ordered after x (y ∷ ys) = ground (arith, any-insert_ordered after x ys)

  pub any-order_by : (after : A → A → Bool) (xs : List A) → any p (order_by after xs) ≡ any p xs
  any-order_by after [] = refl
  any-order_by after (x ∷ xs) =
      any-insert_ordered after x (order_by after xs)
      ∙ ap (λ (b : Bool). p x || b) (any-order_by after xs)

  pub any-filter : (q : A → Bool) (xs : List A) → any p (filter q xs) ≡ any (λ x. q x && p x) xs
  any-filter q [] = refl
  any-filter q (x ∷ xs) = ground (arith, any-filter q xs)

  pub any-none : (xs : List A) → ((x : A) → p x ≡ false) → any p xs ≡ false
  any-none [] h = refl
  any-none (x ∷ xs) h = ground (arith, h x, any-none xs h)

  pub length-filter : (xs : List A) → length (filter p xs) ≤ length xs
  length-filter [] = ground arith
  length-filter (x ∷ xs) = ground (arith, length-filter xs)

module _ {ℓ κ} {A : Type ℓ} {B : Type κ} (p : B → Bool) where
  pub any-map : (f : A → B) (xs : List A) → any p (map f xs) ≡ any (λ x. p (f x)) xs
  any-map f [] = refl
  any-map f (x ∷ xs) = ap (λ (b : Bool). p (f x) || b) (any-map f xs)

  pub any-join : (f : A → Option B) (xs : List A) → any p (join f xs) ≡ any (λ x. passes p (f x)) xs
  any-join f [] = refl
  any-join f (x ∷ xs) = ground (arith, any-join f xs)

module _ {ℓ} {A : Type ℓ} (after : A → A → Bool) where
  length-insert_ordered :
      (x : A) (ys : List A) → length (insert_ordered after x ys) ≡ suc (length ys)
  length-insert_ordered x [] = refl
  length-insert_ordered x (y ∷ ys) = ground (arith, length-insert_ordered x ys)

  pub length-order_by : (xs : List A) → length (order_by after xs) ≡ length xs
  length-order_by [] = refl
  length-order_by (x ∷ xs) =
      length-insert_ordered x (order_by after xs) ∙ ap suc (length-order_by xs)

pub length-join {ℓ κ} :
    {A : Type ℓ} {B : Type κ} (f : A → Option B) (xs : List A) → length (join f xs) ≤ length xs
length-join f [] = ground arith
length-join f (x ∷ xs) = ground (arith, length-join f xs)

pub length-map {ℓ κ} :
    {A : Type ℓ} {B : Type κ} (f : A → B) (xs : List A) → length (map f xs) ≡ length xs
length-map f [] = refl
length-map f (x ∷ xs) = ap suc (length-map f xs)

-- A test that only one key can pass, and that its row fails, is passed by no row.
pub any_only_key :
    {A : Type 0} (key : A → ℕ) (q : A → Bool) (k : ℕ) (xs : List A) {r : A}
    → HasUniqueKeys key xs
    → ((x : A) → q x ≡ true → key x ≡ k)
    → find key k xs ≡ some r
    → q r ≡ false
    → any q xs ≡ false
any_only_key key q k xs {r} unique only_k found fails = elim (Bool-cases (any q xs)) [
  | inl e ↦
      let (x, x_found, passed) = find_of_any key q xs unique e in
      let same_key = only_k x passed in
      let same : some x ≡ some r = sym x_found ∙ ap (λ (j : ℕ). find key j xs) same_key ∙ found in
      cc
  | inr e ↦ e
]

module _ {ℓ κ} {A : Type ℓ} {B : Type κ} (f : A → B) where
  map-take : (n : ℕ) (xs : List A) → map f (take n xs) ≡ take n (map f xs)
  map-take zero xs = refl
  map-take (suc n) [] = refl
  map-take (suc n) (x ∷ xs) = ap (◌∷◌ (f x)) (map-take n xs)

  map-drop : (n : ℕ) (xs : List A) → map f (drop n xs) ≡ drop n (map f xs)
  map-drop zero xs = refl
  map-drop (suc n) [] = refl
  map-drop (suc n) (x ∷ xs) = map-drop n xs

  -- The entries of a page are a page of the entries.
  pub page_of-list_page :
      (p : PaginationParams) (rows : List A)
      → page_of f (list_page p rows) ≡ list_page p (map f rows)
  unfolding page_of list_page
  page_of-list_page p rows = ground (
    arith,
    map-take (limit p) (drop (offset p) rows),
    map-drop (offset p) rows,
    length-map f rows,
  )
