-- ===== src/Examples/Assignment.antt =====
-- The theorems on assigning devices, applied.
use asset_pilot_fastapi.Api.History.{log_append_only}
use asset_pilot_fastapi.Properties.Assignment.{assign-stored, direct_assign-stored}
use asset_pilot_fastapi.Services.Lookup.{get_item_or_404, get_request_or_404}
use asset_pilot_fastapi.Services.DeviceLog.{log_row, append}
use asset_pilot_fastapi.Properties.Exclusion.{assigned_once, assign-excluded}
use asset_pilot_fastapi.Examples.Valid.{rivalled-IsValid, holding-IsValid, waiting-IsValid}
use asset_pilot_fastapi.Properties.Bookings.{update_booking_range-returns, booking_never_overlaps}
use asset_pilot_fastapi.Result.{◌>>=◌, or_raise, raise_if, on_integrity_error, ok}
use asset_pilot_fastapi.Api.Reach.{Reach, Reach-IsValid}
use asset_pilot_fastapi.Enums.{
  DeviceStatus, OwnerType, DeviceStatus-discrete, RequestStatus-discrete, RequestStatus,
  OwnerType-discrete,
}
use asset_pilot_fastapi.Repositories.Requests.{overlaps, has_overlapping_assigned_booking}
use asset_pilot_fastapi.Examples.Data.{
  rival, held_request, holding, rivalled, waiting, outside, request, value,
}
use asset_pilot_fastapi.Api.{is_invalid, dispatch, handle, Call, commit, serve}
use asset_pilot_fastapi.Table.{replace, find}
use asset_pilot_fastapi.Repositories.{
  get_extension_request, get_support_request, get_user, get_item, insert_request, insert_log,
  update_user, update_extension_request, update_support_request, update_item, update_request,
  get_request,
}
use asset_pilot_fastapi.Models.{DeviceLog, User, Item, Request}
use asset_pilot_fastapi.Invariant.{IsValid}
use asset_pilot_fastapi.Services.Assignment.{
  update_booking_range, save_direct_assignment, direct_request, save_assignment, assign,
  direct_assign,
}
use asset_pilot_fastapi.Database.{
  user_collides, item_collides, collides, log_refers, extension_refers, support_refers, item_refers,
  request_refers, Db,
}
use asset_pilot_fastapi.Prelude.{
  List, [], ◌∷◌, ◌∷◌, ◌++◌, none, ◌++◌, refl, ◌≡◌, ◌≡◌, true, some, false,
}

abbrev assigned : Request × Db
assigned = value (request, waiting) (assign outside 20 10 30 40 true 1 waiting)

assign-stored_example :
    (old : Request) × (item : Item) × (new_item : Item) × (entry : DeviceLog) × (get_request 20
        waiting
      ≡ some old)
    × (old.status ≡ RequestStatus.pending_it_approval)
    × (get_item 10 waiting ≡ some item)
    × (item.status ≡ DeviceStatus.available)
    × (item.category_id ≡ old.category_id)
    × (get_request 20 assigned.1 ≡ some assigned.0)
    × (assigned.0.status ≡ RequestStatus.assigned)
    × (assigned.0.requester_id ≡ old.requester_id)
    × (assigned.0.assigned_item_id ≡ some 10)
    × (assigned.0.assigned_from ≡ some 30)
    × (assigned.0.assigned_to ≡ some 40)
    × (get_item 10 assigned.1 ≡ some new_item)
    × (new_item.status ≡ DeviceStatus.assigned)
    × (new_item.current_owner_id ≡ some old.requester_id)
    × (assigned.1.device_logs ≡ waiting.device_logs ++ entry ∷ [])
    × (entry.item_id ≡ 10)
    × (entry.request_id ≡ some 20)
    × (entry.actor_id ≡ some 1)
unfolding assign save_assignment overlaps has_overlapping_assigned_booking update_request
    update_item update_support_request update_extension_request update_user append insert_log
    insert_request on_integrity_error raise_if or_raise ◌>>=◌ get_request_or_404 get_item_or_404
    get_request get_item get_user get_support_request get_extension_request find replace
    request_refers item_refers support_refers extension_refers log_refers collides item_collides
    user_collides log_row RequestStatus-discrete DeviceStatus-discrete
assign-stored_example = assign-stored outside 20 10 30 40 true 1 waiting assigned.1 assigned.0 refl

abbrev directly_assigned : Request × Db
directly_assigned = value (request, waiting) (direct_assign outside 10 2 30 40 1 waiting)

direct_assign-stored_example :
    (item : Item) × (employee : User) × (new_item : Item) × (get_item 10 waiting ≡ some item)
    × (item.owner_type ≡ OwnerType.client)
    × (item.status ≡ DeviceStatus.available)
    × (get_user 2 waiting ≡ some employee)
    × (employee.is_active ≡ true)
    × (get_request directly_assigned.0.id waiting ≡ none)
    × (get_request directly_assigned.0.id directly_assigned.1 ≡ some directly_assigned.0)
    × (directly_assigned.0.requester_id ≡ 2)
    × (directly_assigned.0.assigned_item_id ≡ some 10)
    × (directly_assigned.0.assigned_from ≡ some 30)
    × (directly_assigned.0.assigned_to ≡ some 40)
    × (directly_assigned.0.status ≡ RequestStatus.assigned)
    × (get_item 10 directly_assigned.1 ≡ some new_item)
    × (new_item.status ≡ DeviceStatus.assigned)
    × (new_item.current_owner_id ≡ some 2)
unfolding direct_assign direct_request save_direct_assignment OwnerType-discrete overlaps
    has_overlapping_assigned_booking update_request update_item update_support_request
    update_extension_request update_user append insert_log insert_request on_integrity_error
    raise_if or_raise ◌>>=◌ get_request_or_404 get_item_or_404 get_request get_item get_user
    get_support_request get_extension_request find replace request_refers item_refers support_refers
    extension_refers log_refers collides item_collides user_collides log_row RequestStatus-discrete
    DeviceStatus-discrete
direct_assign-stored_example =
    direct_assign-stored outside 10 2 30 40 1 waiting directly_assigned.1 directly_assigned.0 refl

assign-excluded_example : ¬ (assign outside 21 10 50 60 false 1 rivalled ≡ ok (rival, rivalled))
unfolding get_request find
assign-excluded_example =
    assign-excluded outside rivalled rivalled-IsValid 20 10 21 50 60 false 1 held_request
      (rival, rivalled) refl refl refl

booking_never_overlaps_example :
    has_overlapping_assigned_booking 10 0 99 (some held_request.id) holding ≡ false
unfolding get_request find
booking_never_overlaps_example =
    booking_never_overlaps holding 20 10 0 99 held_request holding-IsValid refl refl refl

update_booking_range-returns_example :
    (result : Request) × (db' : Db) × (update_booking_range outside 20 0 99 holding
      ≡ ok (result, db'))
    × (get_request 20 db' ≡ some result)
    × (result.assigned_from ≡ some 0)
    × (result.assigned_to ≡ some 99)
    × (result.assigned_item_id ≡ held_request.assigned_item_id)
    × (result.status ≡ RequestStatus.assigned)
unfolding get_request find request_refers
update_booking_range-returns_example =
    update_booking_range-returns outside holding 20 0 99 held_request holding-IsValid refl refl refl

Reach-IsValid_example : IsValid (serve outside (Call.assign_call 20 10 30 40 true 1) waiting).1
Reach-IsValid_example =
    Reach-IsValid waiting-IsValid
      (Reach.step outside (Call.assign_call 20 10 30 40 true 1) Reach.here)

-- A run that assigns the device, and what it leaves.
abbrev run_db : Db
run_db = (serve outside (Call.assign_call 20 10 30 40 true 1) waiting).1

assigned_once_example : assigned.0 ≡ assigned.0
unfolding assign save_assignment serve commit handle dispatch is_invalid overlaps
    has_overlapping_assigned_booking update_request update_item update_support_request
    update_extension_request update_user append insert_log insert_request on_integrity_error
    raise_if or_raise ◌>>=◌ get_request_or_404 get_item_or_404 get_request get_item get_user
    get_support_request get_extension_request find replace request_refers item_refers support_refers
    extension_refers log_refers collides item_collides user_collides log_row RequestStatus-discrete
    DeviceStatus-discrete
assigned_once_example =
    assigned_once {start = waiting} {db = run_db} 20 20 10 assigned.0 assigned.0 waiting-IsValid
      (Reach.step outside (Call.assign_call 20 10 30 40 true 1) Reach.here) refl refl refl refl refl
      refl

log_append_only_example :
    (entries : List DeviceLog) × (run_db.device_logs ≡ waiting.device_logs ++ entries)
log_append_only_example =
    log_append_only {start = waiting} {db = run_db}
      (Reach.step outside (Call.assign_call 20 10 30 40 true 1) Reach.here)
