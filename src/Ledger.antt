-- ===== src/Ledger.antt =====
-- What the assignment of devices promises, without requests, dates and statuses: a ledger of the
-- request that each device is assigned to, and the four things that can happen to it.
pub mod Rows
pub mod OneRow
pub mod Refinement
use asset_pilot_fastapi.Repositories.Queries.RequestQueries.{get_active_for_item}
use asset_pilot_fastapi.Models.{Request}
use asset_pilot_fastapi.Repositories.Queries.{column}
use asset_pilot_fastapi.Database.{Db}
use asset_pilot_fastapi.Prelude.{◌≡◌, ◌≡◌, Option, ℕ, none, some}

abbrev pub Ledger : Type 0
Ledger = ℕ → Option ℕ

-- The devices other than the given one are as they were.
abbrev pub KeptBut : ℕ → Ledger → Ledger → Type 0
KeptBut i l l' = (j : ℕ) → ¬ (j ≡ i) → l' j ≡ l j

pub data Step (l l' : Ledger) : Type 0 where
  kept : ((i : ℕ) → l' i ≡ l i) → Step l l'
  taken : (i k : ℕ) → l i ≡ none → l' i ≡ some k → KeptBut i l l' → Step l l'
  released : (i k : ℕ) → l i ≡ some k → l' i ≡ none → KeptBut i l l' → Step l l'
  swapped :
      (i j k : ℕ)
      → l i ≡ some k
      → l j ≡ none
      → l' i ≡ none
      → l' j ≡ some k
      → ((m : ℕ) → ¬ (m ≡ i) → ¬ (m ≡ j) → l' m ≡ l m)
      → Step l l'

-- The ledger of a database: the current request of each device, as its page shows it.
unfoldable pub ledger : Db → Ledger
ledger db item_id = column (λ (r : Request). r.id) (get_active_for_item item_id db)
