-- ===== src/Table/Laws.antt =====
-- Lookup after an update or an insertion, and what a test of all rows says of the rows found.
use asset_pilot_fastapi.Prelude.{
  filter, ℕ, ◌≡◌, refl, Bool, true, false, none, some, List, [], ◌∷◌, ◌++◌, ◌==◌, arith,
  if◌then◌else◌, is_some, any, Bool-cases, inl, inr,
}
use asset_pilot_fastapi.Table.{find, replace, HasUniqueKeys}

module _ {ℓ} {A : Type ℓ} (key : A → ℕ) where
  pub find-key : (k : ℕ) (xs : List A) {x : A} → find key k xs ≡ some x → key x ≡ k
  unfolding find
  find-key k [] h = cc
  find-key k (y ∷ xs) {x} h = elim (Bool-cases (key y == k)) [
    | inl e ↦ ground (arith, find-key k xs {x = x})
    | inr e ↦ find-key k xs (rw e at h)
  ]

  pub find-replace :
      (r : A) (k : ℕ) (xs : List A)
      → find key k (replace key r xs)
        ≡ (if key r == k then if is_some (find key k xs) then some r else none else find key k xs)
  unfolding find replace
  find-replace r k [] = ground arith
  find-replace r k (x ∷ xs) = ground (arith, find-replace r k xs)

  pub find-append :
      (r : A) (k : ℕ) (xs : List A)
      → find key k (xs ++ r ∷ [])
        ≡ (if is_some (find key k xs) then find key k xs else if key r == k then some r else none)
  unfolding find
  find-append r k [] = refl
  find-append r k (x ∷ xs) = ground (arith, find-append r k xs)

  pub replace-HasUniqueKeys :
      (r : A) (xs : List A) → HasUniqueKeys key xs → HasUniqueKeys key (replace key r xs)
  unfolding replace
  replace-HasUniqueKeys r [] h = tt
  replace-HasUniqueKeys r (x ∷ xs) h =
      ground (arith, find-replace r (key x) xs, replace-HasUniqueKeys r xs h.1)

  pub append-HasUniqueKeys :
      (r : A) (xs : List A)
      → find key (key r) xs ≡ none
      → HasUniqueKeys key xs
      → HasUniqueKeys key (xs ++ r ∷ [])
  unfolding find
  append-HasUniqueKeys r [] e h = (refl, tt)
  append-HasUniqueKeys r (x ∷ xs) e h =
      ground (arith, find-append r (key x) xs, append-HasUniqueKeys r xs)

  -- A test that no row passes is failed by each row that is found.
  pub any-find :
      (p : A → Bool) (k : ℕ) (xs : List A) {x : A}
      → any p xs ≡ false
      → find key k xs ≡ some x
      → p x ≡ false
  unfolding find
  any-find p k [] h e = cc
  any-find p k (y ∷ xs) {x} h e = ground (arith, any-find p k xs {x = x})

  -- A test that some row passes is passed by a row that is found by its key.
  pub find_of_any :
      (p : A → Bool) (xs : List A)
      → HasUniqueKeys key xs
      → any p xs ≡ true
      → (x : A) × (find key (key x) xs ≡ some x) × (p x ≡ true)
  unfolding find
  find_of_any p [] u h = cc
  find_of_any p (y ∷ xs) u h = elim (Bool-cases (p y)) [
    | inl e ↦ (y, ground arith, e)
    | inr e ↦
        let (x, found, passed) = find_of_any p xs u.1 (ground arith) in
        (x, ground (arith, found), passed)
  ]

  any_key-filter-none :
      (p : A → Bool) (k : ℕ) (xs : List A)
      → find key k xs ≡ none
      → any (λ (y : A). key y == k) (filter p xs) ≡ false
  unfolding find
  any_key-filter-none p k [] e = refl
  any_key-filter-none p k (y ∷ xs) e = ground (arith, any_key-filter-none p k xs)

  -- The row that is found at a key passes a test, or a filter by the test drops the key.
  pub any_key-filter :
      (p : A → Bool) (k : ℕ) (xs : List A) {x : A}
      → HasUniqueKeys key xs
      → find key k xs ≡ some x
      → any (λ (y : A). key y == k) (filter p xs) ≡ p x
  unfolding find
  any_key-filter p k [] u e = cc
  any_key-filter p k (y ∷ xs) {x} u e =
      ground (arith, any_key-filter p k xs {x = x} u.1, any_key-filter-none p k xs)

  -- The row that replaces the one found at a key is found there.
  pub find-replace_found :
      (r : A) (k : ℕ) (xs : List A) {old : A}
      → find key k xs ≡ some old
      → key r ≡ key old
      → find key k (replace key r xs) ≡ some r
  find-replace_found r k xs {old} e same =
      ground (arith, find-replace r k xs, find-key k xs {x = old} e)
