-- ===== src/Repositories/Queries.antt =====
-- The parts that the SELECT statements of app/repositories/ are made of: filters, joins, orders and limits.
-- PostgreSQL's ILIKE and the collation of names are parameters.
pub mod RequestQueries
pub mod ItemQueries
pub mod TicketQueries
pub mod PeopleQueries
pub mod Laws
pub mod Each
use asset_pilot_fastapi.Table.{find}
use asset_pilot_fastapi.Models.{User, Item, ItemCategory}
use asset_pilot_fastapi.Database.{user_key, category_key, item_key, Db}
use asset_pilot_fastapi.Prelude.{
  leb, not, formatted, false, ◌||◌, ◌||◌, ◌∷◌, ◌∷◌, str_eq, true, List, Option, Bool, String, ℕ,
  none, some, [],
}

-- Whether a text matches a pattern, and whether a text sorts strictly after another.
pub record Sql : Type 0 where
  pub ilike : String → String → Bool
  pub sorts_after : String → String → Bool

module _ {ℓ} {A : Type ℓ} where
  -- ORDER BY, where `after x y` says that x comes strictly after y; rows that the order leaves open
  -- stay in the table's order.
  abbrev pub insert_ordered : (A → A → Bool) → A → List A → List A
  insert_ordered after x [] = x ∷ []
  insert_ordered after x (y ∷ ys) =
      let rest = insert_ordered after x ys in
      elim (after x y) [ true ↦ y ∷ rest | false ↦ x ∷ y ∷ ys ]

  abbrev pub order_by : (A → A → Bool) → List A → List A
  order_by after [] = []
  order_by after (x ∷ xs) = insert_ordered after x (order_by after xs)

-- An inner join: a row for each one whose partners are there.
abbrev pub join {ℓ κ} : {A : Type ℓ} {B : Type κ} → (A → Option B) → List A → List B
join f [] = []
join f (x ∷ xs) = let rest = join f xs in elim (f x) [ none ↦ rest | some y ↦ y ∷ rest ]

-- `where(column == value)`, left out if the value is None.
abbrev pub where_is {ℓ} : {A : Type ℓ} → (A → A → Bool) → Option A → A → Bool
where_is equal none x = true
where_is equal (some value) x = equal x value

-- Two results of a join, where both are there.
abbrev pub both {ℓ κ μ} :
    {A : Type ℓ} {B : Type κ} {C : Type μ} → (A → B → C) → Option A → Option B → Option C
both f (some a) (some b) = some (f a b)
both f _ _ = none

-- A column of the row that a foreign key refers to.
abbrev pub column {ℓ κ} : {A : Type ℓ} {B : Type κ} → (A → B) → Option A → Option B
column f none = none
column f (some a) = some (f a)

abbrev pub user_name : Db → ℕ → Option String
user_name db k = column (λ (u : User). u.name) (find user_key k db.users)

abbrev pub item_name : Db → ℕ → Option String
item_name db k = column (λ (i : Item). i.name) (find item_key k db.items)

abbrev pub category_name : Db → ℕ → Option String
category_name db k = column (λ (c : ItemCategory). c.name) (find category_key k db.categories)

-- A join on a column that may be null.
abbrev pub outer {ℓ} : {A : Type ℓ} → (ℕ → Option A) → Option ℕ → Option A
outer f none = none
outer f (some k) = f k

-- `result.first()`, and `scalar_one_or_none()` after a limit of one.
abbrev pub first {ℓ} : {A : Type ℓ} → List A → Option A
first [] = none
first (x ∷ xs) = some x

-- `search` is tested as a truth value: None and the empty text search for nothing.
abbrev pub matches_search : Sql → Option String → String → String → Bool
matches_search sql none s t = true
matches_search sql (some search) s t =
    str_eq search ""
    || (sql.ilike (formatted "%" search "%") s || sql.ilike (formatted "%" search "%") t)

-- A bound that may be None.
abbrev pub at_least : Option ℕ → ℕ → Bool
at_least none t = true
at_least (some bound) t = leb bound t

abbrev pub at_most : Option ℕ → ℕ → Bool
at_most none t = true
at_most (some bound) t = leb t bound

abbrev pub bool_eq : Bool → Bool → Bool
bool_eq true b = b
bool_eq false b = not b
