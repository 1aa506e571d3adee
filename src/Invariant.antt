-- ===== src/Invariant.antt =====
-- What holds of the database between two calls: the primary keys of the tables that calls write, the partial
-- unique index on requests, and that an assigned request has its device and both ends of its booking.
pub mod Index
pub mod Writes
pub mod Keeps
pub mod Assignment
pub mod Requests
pub mod Shipping
pub mod Extension
pub mod Support
pub mod Inventory
use asset_pilot_fastapi.Prelude.{◌&&◌, ℕ, ◌≡◌, Bool, true, false, some, none, List, is_some}
use asset_pilot_fastapi.Enums.{RequestStatus}
use asset_pilot_fastapi.Models.{Request}
use asset_pilot_fastapi.Table.{find, HasUniqueKeys}
use asset_pilot_fastapi.Database.{support_key, Db, item_key, request_key, log_key, collides}

-- No two requests that are found share an entry of the index.
abbrev pub IndexHolds : List Request → Type 0
IndexHolds rows =
    (a b : ℕ) (x y : Request)
    → find request_key a rows ≡ some x
    → find request_key b rows ≡ some y
    → collides x y ≡ false

-- A device, a start and an end.
abbrev pub is_booked : Request → Bool
is_booked r = is_some r.assigned_item_id && is_some r.assigned_from && is_some r.assigned_to

-- An assigned request is booked.
abbrev pub IsBookedIfAssigned : Request → Type 0
IsBookedIfAssigned r = r.status ≡ RequestStatus.assigned → is_booked r ≡ true

pub record IsValid (db : Db) : Type 0 where
  pub item_keys : HasUniqueKeys item_key db.items
  pub request_keys : HasUniqueKeys request_key db.requests
  pub support_keys : HasUniqueKeys support_key db.support_requests
  pub log_keys : HasUniqueKeys log_key db.device_logs
  pub index_holds : IndexHolds db.requests
  pub booked :
      (k : ℕ) (r : Request) → find request_key k db.requests ≡ some r → IsBookedIfAssigned r
