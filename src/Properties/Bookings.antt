-- ===== src/Properties/Bookings.antt =====
-- Moving a booking: `update_booking_range` of app/services/assignment_service.py.
use asset_pilot_fastapi.Repositories.Laws.{update_request-returns}
use asset_pilot_fastapi.Table.Laws.{find-replace_found, find_of_any}
use asset_pilot_fastapi.Result.{◌>>=◌, or_raise, raise_if, ok}
use asset_pilot_fastapi.Enums.{RequestStatus}
use asset_pilot_fastapi.Table.{replace, find, HasUniqueKeys}
use asset_pilot_fastapi.Invariant.{IsValid}
use asset_pilot_fastapi.Services.Lookup.{get_request_or_404}
use asset_pilot_fastapi.Models.{Request}
use asset_pilot_fastapi.Services.Assignment.{update_booking_range}
use asset_pilot_fastapi.Database.{same_id, request_refers, request_key, Env, Db, collides}
use asset_pilot_fastapi.Repositories.{get_request}
use asset_pilot_fastapi.Repositories.Requests.{has_overlapping_assigned_booking, overlaps}
use asset_pilot_fastapi.Prelude.{
  none, refl, is_id, Option, Option-cases, inr, ==_refl, arith, inl, Bool-cases, any, true, false,
  some, ◌≡◌, ◌≡◌, List, ℕ,
}

is_id_eq : (o : Option ℕ) (k : ℕ) → is_id o k ≡ same_id o (some k)
is_id_eq none k = refl
is_id_eq (some a) k = refl

-- A request that is found shares its index entry with no row, and neither does a row that differs in no
-- column of the index.
none_collides :
    (r x : Request) (rows : List Request)
    → HasUniqueKeys request_key rows
    → ((k : ℕ) (y : Request) → find request_key k rows ≡ some y → collides r y ≡ false)
    → ((y : Request) → collides x y ≡ collides r y)
    → any (collides x) rows ≡ false
none_collides r x rows keys apart alike = elim (Bool-cases (any (collides x) rows)) [
  | inl e ↦
      let (y, found, passed) = find_of_any request_key (collides x) rows keys e in
      ground (arith, apart (request_key y) y found, alike y)
  | inr e ↦ e
]

same_references :
    (db : Db) (r : Request) (from to : ℕ)
    → request_refers db r ≡ true
    → request_refers db (record r { assigned_from = some from; assigned_to = some to }) ≡ true
unfolding request_refers
same_references db r from to h = h

same_entry :
    (r : Request) (from to : ℕ) (y : Request)
    → collides (record r { assigned_from = some from; assigned_to = some to }) y ≡ collides r y
unfolding collides
same_entry r from to y = refl

-- No row of a valid table overlaps the booking of an assigned request of the device.
none_overlaps :
    (item_id assigned_from assigned_to : ℕ) (r : Request) (rows : List Request)
    → HasUniqueKeys request_key rows
    → ((k : ℕ) (x : Request) → find request_key k rows ≡ some x → collides r x ≡ false)
    → r.status ≡ RequestStatus.assigned
    → r.assigned_item_id ≡ some item_id
    → any (overlaps item_id assigned_from assigned_to (some r.id)) rows ≡ false
unfolding overlaps collides
none_overlaps item_id assigned_from assigned_to r rows keys apart is_assigned holds_item =
    elim (Bool-cases (any (overlaps item_id assigned_from assigned_to (some r.id)) rows)) [
      | inl e ↦
          let (x, found, passed) =
            find_of_any request_key (overlaps item_id assigned_from assigned_to (some r.id)) rows
              keys e in
          ground (
            arith,
            apart (request_key x) x found,
            is_id_eq x.assigned_item_id item_id,
            ==_refl item_id,
          )
      | inr e ↦ e
    ]

-- In a valid database, the overlap test for a device that an assigned request holds, with this request left out, is never true, whatever the dates.
pub booking_never_overlaps :
    (db : Db) (request_id item_id assigned_from assigned_to : ℕ) (r : Request)
    → IsValid db
    → get_request request_id db ≡ some r
    → r.status ≡ RequestStatus.assigned
    → r.assigned_item_id ≡ some item_id
    → has_overlapping_assigned_booking item_id assigned_from assigned_to (some r.id) db ≡ false
unfolding get_request has_overlapping_assigned_booking
booking_never_overlaps db request_id item_id assigned_from assigned_to r valid found is_assigned
      holds_item =
    none_overlaps item_id assigned_from assigned_to r db.requests valid.request_keys
      (λ k x e. valid.index_holds request_id k r x found e) is_assigned holds_item

-- In a valid database, moving the booking of an assigned request whose foreign keys hold succeeds for all dates, and stores the new dates in that request.
pub update_booking_range-returns :
    (env : Env) (db : Db) (request_id assigned_from assigned_to : ℕ) (r : Request)
    → IsValid db
    → get_request request_id db ≡ some r
    → r.status ≡ RequestStatus.assigned
    → request_refers db r ≡ true
    → (result : Request) × (db' : Db) × (update_booking_range env request_id assigned_from
          assigned_to db
        ≡ ok (result, db'))
      × (get_request request_id db' ≡ some result)
      × (result.assigned_from ≡ some assigned_from)
      × (result.assigned_to ≡ some assigned_to)
      × (result.assigned_item_id ≡ r.assigned_item_id)
      × (result.status ≡ RequestStatus.assigned)
unfolding get_request update_booking_range get_request_or_404 raise_if or_raise ◌>>=◌
update_booking_range-returns env db request_id assigned_from assigned_to r valid found is_assigned
      refs =
    elim (Option-cases r.assigned_item_id) [
      | inl e ↦ ground (arith, valid.booked request_id r found is_assigned)
      | inr (item_id, e) ↦
          let new = record r {
            assigned_from = some assigned_from;
            assigned_to = some assigned_to;
          } in
          let (time, wrote) =
            update_request-returns env new db (same_references db r assigned_from assigned_to refs)
              (none_collides r new db.requests valid.request_keys
                (λ k y h. valid.index_holds request_id k r y found h)
                (same_entry r assigned_from assigned_to)) in
          (
            record new { updated_at = time },
            record db {
              requests = replace request_key (record new { updated_at = time }) db.requests;
            },
            ground (
              arith,
              wrote,
              booking_never_overlaps db request_id item_id assigned_from assigned_to r valid found
                  is_assigned e,
            ),
            find-replace_found request_key (record new { updated_at = time }) request_id db.requests
                found refl,
            refl,
            refl,
            refl,
            is_assigned,
          )
    ]
