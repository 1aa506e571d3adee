-- ===== src/Table.antt =====
-- app/repositories/base.py: the rows of one table, by primary key. A table is the list of its rows in
-- the order of insertion; `find` is `session.get`, `replace` an UPDATE of one row.
pub mod Laws
use asset_pilot_fastapi.Prelude.{
  ℕ, ◌≡◌, Bool, true, false, Option, none, some, List, [], ◌∷◌, ◌++◌, ◌==◌, if◌then◌else◌,
}

module _ {ℓ} {A : Type ℓ} (key : A → ℕ) where
  unfoldable pub find : ℕ → List A → Option A
  find k [] = none
  find k (x ∷ xs) = if key x == k then some x else find k xs

  unfoldable pub replace : A → List A → List A
  replace r [] = []
  replace r (x ∷ xs) = if key x == key r then r ∷ xs else x ∷ replace r xs

  -- The primary key: no two rows have one id.
  abbrev pub HasUniqueKeys : List A → Type ℓ
  HasUniqueKeys [] = Unit
  HasUniqueKeys (x ∷ xs) = (find (key x) xs ≡ none) × HasUniqueKeys xs
