-- ===== src/Ledger/Rows.antt =====
-- The ledger of a valid database, and of one in which a request has been rewritten or added.
use asset_pilot_fastapi.Table.Laws.{find-key}
use asset_pilot_fastapi.Enums.{RequestStatus}
use asset_pilot_fastapi.Database.{request_key}
use asset_pilot_fastapi.Table.{find}
use asset_pilot_fastapi.Repositories.Requests.{status_is}
use asset_pilot_fastapi.Properties.Queries.{
  is_active_for_if, get_active_for_item-assigned, is_active_for-true,
}
use asset_pilot_fastapi.Invariant.{IsValid}
use asset_pilot_fastapi.Repositories.{get_request}
use asset_pilot_fastapi.Models.{Request}
use asset_pilot_fastapi.Repositories.Queries.RequestQueries.{is_active_for}
use asset_pilot_fastapi.Ledger.{column, get_active_for_item, Db, ledger}
use asset_pilot_fastapi.Prelude.{
  ◌∙◌, ◌∙◌, inr, ap, ==_refl, Option-cases, ◌⊎◌, inl, ◌⊎◌, arith, Bool-cases, ◌≡◌, if◌then◌else◌, ℕ,
  Option, true, none, some,
}

-- A request that is stored as assigned is in the ledger under its device.
pub ledger-found :
    (db : Db) (item_id k : ℕ) (r : Request)
    → IsValid db
    → find request_key k db.requests ≡ some r
    → is_active_for item_id r ≡ true
    → ledger db item_id ≡ some k
unfolding ledger get_request
ledger-found db item_id k r valid found active =
    let same = find-key request_key k db.requests {x = r} found in
    let (on, item) = is_active_for-true item_id r active in
    let shown =
      (get_active_for_item-assigned db item_id r valid).1
        (ap (λ (j : ℕ). find request_key j db.requests) same ∙ found, on, item) in
    ap (column (λ (r : Request). r.id)) shown ∙ ap some same

-- A device is in the ledger under a request, or no stored request is assigned with it.
pub ledger-cases :
    (db : Db) (item_id : ℕ)
    → IsValid db
    → ((k : ℕ) × (r : Request) × (find request_key k db.requests ≡ some r)
        × (is_active_for item_id r ≡ true)
        × (ledger db item_id ≡ some k))
      ⊎ ((ledger db item_id ≡ none)
          × ((k : ℕ) (r : Request)
              → find request_key k db.requests ≡ some r
              → ¬ (is_active_for item_id r ≡ true)))
unfolding ledger get_request
ledger-cases db item_id valid = elim (Option-cases (get_active_for_item item_id db)) [
  | inl e ↦ inr (
    ap (column (λ (r : Request). r.id)) e,
    λ k r found active.
        let held = ledger-found db item_id k r valid found active in
        let empty = ap (column (λ (r : Request). r.id)) e in cc,
  )
  | inr (r, e) ↦
      let (found, on, item) = (get_active_for_item-assigned db item_id r valid).0 e in
      inl
        (r.id, r, found, is_active_for_if item_id r on item, ap (column (λ (r : Request). r.id)) e)
]

-- The rows of two tables but for one, which was perhaps there and is the given one now.
pub record OneRow (k0 : ℕ) (was : Option Request) (new : Request) (db db' : Db) : Type 0 where
  pub before : find request_key k0 db.requests ≡ was
  pub now : find request_key k0 db'.requests ≡ some new
  pub others :
      (k : ℕ) → ¬ (k ≡ k0) → find request_key k db'.requests ≡ find request_key k db.requests

-- The device that a request is assigned with, if it is assigned.
abbrev pub held : Request → Option ℕ
held r = if status_is r.status RequestStatus.assigned then r.assigned_item_id else none

abbrev pub was_held : Option Request → Option ℕ
was_held none = none
was_held (some r) = held r

pub held-active : (r : Request) (i : ℕ) → held r ≡ some i → is_active_for i r ≡ true
unfolding is_active_for
held-active r i h = elim (Bool-cases (status_is r.status RequestStatus.assigned)) [
  | inl e ↦ ground (arith, e, h, ==_refl i)
  | inr e ↦ ground (arith, e, h)
]

pub active-held : (r : Request) (i : ℕ) → is_active_for i r ≡ true → held r ≡ some i
unfolding is_active_for
active-held r i h = let item = (is_active_for-true i r h).1 in ground (arith, h, item)
