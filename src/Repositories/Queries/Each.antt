-- ===== src/Repositories/Queries/Each.antt =====
-- A property of every row, kept through the parts of a query.
use asset_pilot_fastapi.Repositories.Queries.{first, join, order_by, insert_ordered}
use asset_pilot_fastapi.Table.{find, HasUniqueKeys}
use asset_pilot_fastapi.Prelude.{
  inr, ==_iff, zero, refl, ◌==◌, inl, ==_refl, ◌==◌, Option-cases, ◌⊎◌, map, Bool-cases, filter,
  suc, arith, ◌⊎◌, ◌≡◌, take, ◌≡◌, ◌∷◌, drop, [], ℕ, List, Option, Bool, true, none, some,
}

pub data Each {ℓ κ} {A : Type ℓ} (P : A → Type κ) : List A → Type (ℓ ⊔ κ) where
  every : Each P []
  also : {x : A} {xs : List A} → P x → Each P xs → Each P (x ∷ xs)

pub weaken-Each {ℓ κ μ} :
    {A : Type ℓ} {P : A → Type κ} {Q : A → Type μ} (f : (x : A) → P x → Q x) (xs : List A)
    → Each P xs
    → Each Q xs
weaken-Each f [] every = every
weaken-Each f (x ∷ xs) (also p h) = also (f x p) (weaken-Each f xs h)

module _ {ℓ κ} {A : Type ℓ} {P : A → Type κ} where
  pub filter-Each :
      (q : A → Bool) (xs : List A) → Each P xs → Each (λ x. P x × (q x ≡ true)) (filter q xs)
  filter-Each q [] every = every
  filter-Each q (x ∷ xs) (also p h) = elim (Bool-cases (q x)) [
    | inl e ↦ rw (e, filter) (also (p, e) (filter-Each q xs h))
    | inr e ↦ rw (e, filter) (filter-Each q xs h)
  ]

  insert_ordered-Each :
      (after : A → A → Bool) (x : A) (ys : List A)
      → P x
      → Each P ys
      → Each P (insert_ordered after x ys)
  insert_ordered-Each after x [] p every = also p every
  insert_ordered-Each after x (y ∷ ys) p (also py h) = elim (Bool-cases (after x y)) [
    | inl e ↦ rw (e, insert_ordered) (also py (insert_ordered-Each after x ys p h))
    | inr e ↦ rw (e, insert_ordered) (also p (also py h))
  ]

  pub order_by-Each : (after : A → A → Bool) (xs : List A) → Each P xs → Each P (order_by after xs)
  order_by-Each after [] every = every
  order_by-Each after (x ∷ xs) (also p h) =
      insert_ordered-Each after x (order_by after xs) p (order_by-Each after xs h)

  pub take-Each : (n : ℕ) (xs : List A) → Each P xs → Each P (take n xs)
  take-Each zero xs h = every
  take-Each (suc n) [] h = every
  take-Each (suc n) (x ∷ xs) (also p h) = also p (take-Each n xs h)

  pub drop-Each : (n : ℕ) (xs : List A) → Each P xs → Each P (drop n xs)
  drop-Each zero xs h = h
  drop-Each (suc n) [] h = every
  drop-Each (suc n) (x ∷ xs) (also p h) = drop-Each n xs h

  -- The first row has the property, unless there is none.
  pub first-Each : (xs : List A) → Each P xs → (xs ≡ []) ⊎ ((x : A) × P x × (first xs ≡ some x))
  first-Each [] every = inl refl
  first-Each (x ∷ xs) (also p h) = inr (x, p, refl)

module _ {ℓ κ μ} {A : Type ℓ} {B : Type μ} {P : A → Type κ} where
  pub join-Each :
      (f : A → Option B) (xs : List A)
      → Each P xs
      → Each (λ b. (a : A) × P a × (f a ≡ some b)) (join f xs)
  join-Each f [] every = every
  join-Each f (x ∷ xs) (also p h) = elim (Option-cases (f x)) [
    | inl e ↦ rw (e, join) (join-Each f xs h)
    | inr (b, e) ↦ rw (e, join) (also (x, p, e) (join-Each f xs h))
  ]

  pub map-Each :
      (f : A → B) (xs : List A) → Each P xs → Each (λ b. (a : A) × P a × (f a ≡ b)) (map f xs)
  map-Each f [] every = every
  map-Each f (x ∷ xs) (also p h) = also (x, p, refl) (map-Each f xs h)

module _ {ℓ} {A : Type ℓ} (key : A → ℕ) where
  pub found_later :
      (x y : A) (xs : List A)
      → find key (key x) xs ≡ none
      → find key (key y) xs ≡ some y
      → find key (key y) (x ∷ xs) ≡ some y
  unfolding find
  found_later x y xs free found = elim (Bool-cases (key x == key y)) [
    | inl e ↦ (let same = (==_iff (key x) (key y)).0 e in cc)
    | inr e ↦ ground (arith, found)
  ]

  -- Every row of a table is found by its key.
  pub find-Each : (xs : List A) → HasUniqueKeys key xs → Each (λ x. find key (key x) xs ≡ some x) xs
  unfolding find
  find-Each [] h = every
  find-Each (x ∷ xs) (free, h) =
      also (ground (arith, ==_refl (key x)))
        (weaken-Each (λ y found. found_later x y xs free found) xs (find-Each xs h))
