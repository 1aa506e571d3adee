-- ===== src/Properties/Suggestions.antt =====
-- The devices that app/services/assignment_service.py suggests for a request.
use asset_pilot_fastapi.Properties.Exclusion.{assign-excluded}
use asset_pilot_fastapi.Table.Laws.{find_of_any}
use asset_pilot_fastapi.Repositories.Queries.{category_name}
use asset_pilot_fastapi.Properties.Queries.{is_active_for-true, active_once}
use asset_pilot_fastapi.Services.Lookup.{get_request_or_404}
use asset_pilot_fastapi.Repositories.Queries.RequestQueries.{is_active_for}
use asset_pilot_fastapi.Repositories.Queries.ItemQueries.{
  busier, overlap_exists, SuggestedDeviceRow, active_bookings_count, is_suggested, suggested_row,
  list_suggested_devices,
}
use asset_pilot_fastapi.Services.Assignment.{assign}
use asset_pilot_fastapi.Repositories.Requests.{has_overlapping_assigned_booking}
use asset_pilot_fastapi.Enums.{DeviceStatus}
use asset_pilot_fastapi.Views.ItemResults.{item_result_from}
use asset_pilot_fastapi.Repositories.{get_item, get_request}
use asset_pilot_fastapi.Views.Queues.{
  suggested_device_result_from, suggested_devices, SuggestedDeviceResult,
}
use asset_pilot_fastapi.Table.{find, HasUniqueKeys}
use asset_pilot_fastapi.Database.{item_key, Env, request_key, Db}
use asset_pilot_fastapi.Models.{Item, Request}
use asset_pilot_fastapi.Result.{ok, or_raise, ◌>>=◌}
use mathlib.Core.Path.{subst}
use asset_pilot_fastapi.Prelude.{
  ◌∙◌, sym, ap, ==_refl, refl, inl, inr, [], Bool-cases, Option-cases, map, ◌∷◌, any, arith, ◌≤◌,
  ◌≤◌, filter, length, ◌≡◌, ◌≡◌, List, Bool, ℕ, true, false, none, some,
}
use asset_pilot_fastapi.Invariant.{IsValid}
use asset_pilot_fastapi.Repositories.Queries.Each.{
  found_later, Each, weaken-Each, filter-Each, join-Each, map-Each, order_by-Each, find-Each,
}

length-filter_none :
    (p : Request → Bool) (rows : List Request) → any p rows ≡ false → length (filter p rows) ≡ 0
length-filter_none p [] h = refl
length-filter_none p (r ∷ rows) h = ground (arith, h, length-filter_none p rows)

-- A test that only one row can pass selects at most one row.
at_most_one :
    (p : Request → Bool) (rows : List Request)
    → HasUniqueKeys request_key rows
    → ((r s : Request)
        → find request_key r.id rows ≡ some r
        → find request_key s.id rows ≡ some s
        → p r ≡ true
        → p s ≡ true
        → r ≡ s)
    → length (filter p rows) ≤ 1
unfolding find
at_most_one p [] unique once = ground arith
at_most_one p (x ∷ xs) (free, unique) once = elim (Bool-cases (p x)) [
  | inr e ↦
      let rest = at_most_one p xs unique (λ r s er es.
        once r s (found_later request_key x r xs free er)
          (found_later request_key x s xs free es)) in
      ground (arith, e, rest)
  | inl e ↦ elim (Bool-cases (any p xs)) [
    | inr nobody ↦ ground (arith, e, length-filter_none p xs nobody)
    | inl somebody ↦
        let (y, found, passed) = find_of_any request_key p xs unique somebody in
        let same =
          once x y (ground (arith, ==_refl x.id)) (found_later request_key x y xs free found) e
            passed in
        let twice = ap (λ (r : Request). find request_key r.id xs) same in cc
  ]
]

suggested_row-some :
    (db : Db) (i : Item) (row : SuggestedDeviceRow)
    → suggested_row db i ≡ some row
    → (row.item ≡ i) × (row.active_bookings_count ≡ active_bookings_count db i)
unfolding suggested_row
suggested_row-some db i row h = elim (Option-cases (category_name db i.category_id)) [
  | inl e ↦ ground (arith, e, h)
  | inr (c, e) ↦ (ground (arith, e, h), ground (arith, e, h))
]

is_suggested-true :
    (category_id from to : ℕ) (db : Db) (i : Item)
    → is_suggested category_id from to db i ≡ true
    → (i.status ≡ DeviceStatus.available)
      × (i.category_id ≡ category_id)
      × (has_overlapping_assigned_booking i.id from to none db ≡ false)
unfolding is_suggested overlap_exists
is_suggested-true category_id from to db i h =
    (ground (arith, h), ground (arith, h), ground (arith, h))

module _ (db : Db) (valid : IsValid db) (i : Item) where
  bookings_bounded : active_bookings_count db i ≤ 1
  unfolding active_bookings_count
  bookings_bounded =
      at_most_one (is_active_for i.id) db.requests valid.request_keys
        λ r s. active_once db i.id r s valid

  -- A device that has an active booking is assigned.
  booked_holder :
      active_bookings_count db i ≡ 1
      → (holder : Request) × (find request_key holder.id db.requests ≡ some holder)
        × (is_active_for i.id holder ≡ true)
  unfolding active_bookings_count
  booked_holder counted = elim (Bool-cases (any (is_active_for i.id) db.requests)) [
    | inl e ↦ find_of_any request_key (is_active_for i.id) db.requests valid.request_keys e
    | inr e ↦
        let nothing = length-filter_none (is_active_for i.id) db.requests e in
        ground (arith, nothing, counted)
  ]

-- In a valid database, each device that `suggested_devices` returns for a request is a stored device that is available and of the request's category, without a booking that overlaps the requested dates; it has at most one active booking; and if it has one, it is suggested in vain, since `assign` returns for no request that is given this device, at whatever dates.
pub suggested_devices-fit :
    (request_id : ℕ) (db : Db) (request : Request) (rows : List SuggestedDeviceResult)
    → IsValid db
    → get_request request_id db ≡ some request
    → suggested_devices request_id db ≡ ok rows
    → Each
        (λ row.
          (item : Item) × (get_item item.id db ≡ some item)
          × (row.base ≡ item_result_from item)
          × (item.status ≡ DeviceStatus.available)
          × (item.category_id ≡ request.category_id)
          × (has_overlapping_assigned_booking item.id request.requested_from request.requested_to
                none db
              ≡ false)
          × (row.active_bookings_count ≤ 1)
          × (row.active_bookings_count ≡ 1
              → (env : Env) (other_id from to : ℕ) (is_wfh : Bool) (actor_id : ℕ) (p : Request × Db)
              → ¬ (assign env other_id item.id from to is_wfh actor_id db ≡ ok p)))
        rows
unfolding suggested_devices list_suggested_devices get_request_or_404 get_request get_item or_raise
    ◌>>=◌
suggested_devices-fit request_id db request rows valid found h =
    let listed =
      list_suggested_devices request.category_id request.requested_from request.requested_to db in
    let rows_are : map suggested_device_result_from listed ≡ rows = ground (arith, found, h) in
    let stored = map-Each suggested_device_result_from _ (
      order_by-Each busier _ (
        join-Each (suggested_row db) _ (
          filter-Each
            (is_suggested request.category_id request.requested_from request.requested_to db) _
            (find-Each item_key db.items valid.item_keys)))) in
    weaken-Each
      (λ row (srow, (item, (item_found, chosen), joined), made).
        let (available, category, free) =
          is_suggested-true request.category_id request.requested_from request.requested_to db item
            chosen in
        let (same_item, counted) = suggested_row-some db item srow joined in
        let count =
          sym (ap (λ (r : SuggestedDeviceResult). r.active_bookings_count) made) ∙ counted in
        (
          item,
          item_found,
          sym (ap (λ (r : SuggestedDeviceResult). r.base) made) ∙ ap item_result_from same_item,
          available,
          category,
          free,
          omega (arith, count, bookings_bounded db valid item),
          λ booked env other_id from to is_wfh actor_id p.
              let (holder, holder_found, active) =
                booked_holder db valid item (sym count ∙ booked) in
              let (on, holds) = is_active_for-true item.id holder active in
              assign-excluded env db valid holder.id item.id other_id from to is_wfh actor_id holder
                p holder_found on holds,
        ))
      rows (subst (Each _) rows_are stored)
