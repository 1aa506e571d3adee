-- ===== src/Repositories/Requests.antt =====
-- app/repositories/request_repository.py: the queries of bookings and queues.
use asset_pilot_fastapi.Prelude.{
  ℕ, Bool, true, false, not, ◌&&◌, Option, none, some, ltb, ◌==◌, is_id, same, any, length, filter,
}
use asset_pilot_fastapi.Enums.{RequestStatus, RequestStatus-discrete}
use asset_pilot_fastapi.Models.{Request}
use asset_pilot_fastapi.Database.{Db}

abbrev pub status_is : RequestStatus → RequestStatus → Bool
status_is = same RequestStatus-discrete

-- SQL's `column < value` and `column > value`: a null is neither.
abbrev pub before : Option ℕ → ℕ → Bool
before none t = false
before (some s) t = ltb s t

abbrev pub after : Option ℕ → ℕ → Bool
after none t = false
after (some s) t = ltb t s

-- `exclude_request_id`: no condition where none is given.
abbrev pub is_excluded : Option ℕ → ℕ → Bool
is_excluded none k = false
is_excluded (some e) k = e == k

-- The condition of the query on one row.
unfoldable pub overlaps : ℕ → ℕ → ℕ → Option ℕ → Request → Bool
overlaps item_id assigned_from assigned_to exclude r =
    is_id r.assigned_item_id item_id
    && status_is r.status RequestStatus.assigned
    && before r.assigned_from assigned_to
    && after r.assigned_to assigned_from
    && not (is_excluded exclude r.id)

unfoldable pub has_overlapping_assigned_booking : ℕ → ℕ → ℕ → Option ℕ → Db → Bool
has_overlapping_assigned_booking item_id assigned_from assigned_to exclude db =
    any (overlaps item_id assigned_from assigned_to exclude) db.requests

-- The number of requests that await a manager or IT.
unfoldable pub count_pending : Db → ℕ
count_pending db = length (
    filter
      (λ (r : Request). elim r.status [
        | RequestStatus.pending_mgr_approval ↦ true
        | RequestStatus.pending_it_approval ↦ true
        | _ ↦ false
      ])
      db.requests)
