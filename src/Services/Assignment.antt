-- ===== src/Services/Assignment.antt =====
-- app/services/assignment_service.py: assigning a device to a request or directly to an employee, and
-- moving a booking.
use asset_pilot_fastapi.Prelude.{true, false, none, same, length, ℕ, ◌==◌, Bool, not, some}
use asset_pilot_fastapi.Result.{
  not_found, Result, ok, ◌>>=◌, ◌>>◌, raise_if, or_raise, on_integrity_error, conflict, validation,
  assertion_error,
}
use asset_pilot_fastapi.Enums.{
  MgrApprovalStatus, OwnerType, OwnerType-discrete, RequestPriority, DeviceStatus, RequestStatus,
  DeviceLogEvent, ActorRole, status_value,
}
use asset_pilot_fastapi.Models.{Item, Request}
use asset_pilot_fastapi.Database.{Db, Env}
use asset_pilot_fastapi.Repositories.{get_user, insert_request, update_request, update_item}
use asset_pilot_fastapi.Repositories.Requests.{status_is, has_overlapping_assigned_booking}
use asset_pilot_fastapi.Services.DeviceLog.{append, log_args}
use asset_pilot_fastapi.Services.Lookup.{device_is, get_request_or_404, get_item_or_404}

unfoldable pub update_booking_range : Env → ℕ → ℕ → ℕ → Db → Result (Request × Db)
unfolding get_request_or_404
update_booking_range env request_id assigned_from assigned_to db = do
  request ← get_request_or_404 request_id db
  raise_if (not (status_is request.status RequestStatus.assigned))
      (conflict "Only assigned requests have a booking range to adjust.")
  item_id ← or_raise request.assigned_item_id assertion_error
  raise_if (has_overlapping_assigned_booking item_id assigned_from assigned_to (some request.id) db)
      (conflict "The new range overlaps another active booking for this device.")
  update_request env
      (record request { assigned_from = some assigned_from; assigned_to = some assigned_to }) db

-- The writes of the `try` block of `assign`.
unfoldable pub save_assignment : Env → Request → Item → Db → Result (Request × Db)
save_assignment env request item db = do
  (updated_request, db1) ← update_request env request db
  (updated_item, db2) ← update_item env item db1
  ok (updated_request, db2)

unfoldable pub assign : Env → ℕ → ℕ → ℕ → ℕ → Bool → ℕ → Db → Result (Request × Db)
unfolding get_request_or_404 get_item_or_404
assign env request_id item_id assigned_from assigned_to is_wfh actor_id db = do
  request ← get_request_or_404 request_id db
  raise_if (not (status_is request.status RequestStatus.pending_it_approval))
      (conflict "Only requests pending IT approval can be assigned.")
  item ← get_item_or_404 item_id db
  raise_if (not (device_is item.status DeviceStatus.available))
      (conflict "Only available devices can be assigned.")
  raise_if (not (item.category_id == request.category_id))
      (validation "The device category does not match the request's category.")
  raise_if (has_overlapping_assigned_booking item_id assigned_from assigned_to (some request.id) db)
      (conflict "The chosen dates overlap another active booking for this device.")
  (updated_request, db2) ←
      on_integrity_error
        (save_assignment env
          (record request {
            assigned_item_id = some item_id;
            assigned_from = some assigned_from;
            assigned_to = some assigned_to;
            is_wfh = is_wfh;
            it_decided_by = some actor_id;
            it_decided_at = some (env.clock 0);
            status = RequestStatus.assigned;
          })
          (record item {
            status = DeviceStatus.assigned;
            current_owner_id = some request.requester_id;
          })
          db)
        (conflict "This device was just assigned to another active request.")
  (entry, db3) ←
      append env
        (record (log_args item.id DeviceLogEvent.assigned (some actor_id) ActorRole.it_admin) {
          request_id = some updated_request.id;
          from_value = some (status_value DeviceStatus.available);
          to_value = some (status_value DeviceStatus.assigned);
        })
        db2
  ok (updated_request, db3)

-- The writes of the `try` block of `direct_assign`.
unfoldable pub save_direct_assignment : Env → Request → Item → Db → Result (Request × Db)
save_direct_assignment env request item db = do
  (created_request, db1) ← insert_request request db
  (updated_item, db2) ← update_item env item db1
  ok (created_request, db2)

-- The request of a direct assignment; the columns not named take the defaults of the model.
unfoldable pub direct_request : Env → Item → ℕ → ℕ → ℕ → ℕ → ℕ → Db → Request
direct_request env item item_id employee_id assigned_from assigned_to actor_id db = record {
  id = env.new_id (length db.requests);
  requester_id = employee_id;
  category_id = item.category_id;
  assigned_item_id = some item_id;
  requested_from = assigned_from;
  requested_to = assigned_to;
  assigned_from = some assigned_from;
  assigned_to = some assigned_to;
  status = RequestStatus.assigned;
  priority = RequestPriority.medium;
  note = none;
  requires_mgr_approval = false;
  mgr_approval_status = MgrApprovalStatus.not_required;
  manager_id = none;
  manager_decision_note = none;
  manager_decided_at = none;
  it_decided_by = some actor_id;
  it_decision_note = none;
  it_decided_at = some (env.clock 0);
  rejected_by = none;
  rejected_reason = none;
  cancelled_by = none;
  cancelled_at = none;
  is_wfh = false;
  ship_tracking_url = none;
  ship_initiated_at = none;
  ship_completed_at = none;
  return_tracking_url = none;
  return_initiated_at = none;
  completed_at = none;
  completed_by = none;
  completed_next_status = none;
  is_client_direct = true;
  created_at = env.transaction_time;
  updated_at = env.transaction_time;
}

unfoldable pub direct_assign : Env → ℕ → ℕ → ℕ → ℕ → ℕ → Db → Result (Request × Db)
unfolding get_item_or_404
direct_assign env item_id employee_id assigned_from assigned_to actor_id db = do
  item ← get_item_or_404 item_id db
  raise_if (not (same OwnerType-discrete item.owner_type OwnerType.client))
      (validation "Direct-assign is only valid for client-owned devices.")
  raise_if (not (device_is item.status DeviceStatus.available))
      (conflict "Only available devices can be directly assigned.")
  raise_if (has_overlapping_assigned_booking item_id assigned_from assigned_to none db)
      (conflict "The chosen dates overlap another active booking for this device.")
  employee ← or_raise (get_user employee_id db) (not_found "Employee not found.")
  raise_if (not employee.is_active) (conflict "Only active employees can be assigned devices.")
  (created_request, db2) ←
      on_integrity_error
        (save_direct_assignment env
          (direct_request env item item_id employee_id assigned_from assigned_to actor_id db)
          (record item { status = DeviceStatus.assigned; current_owner_id = some employee_id }) db)
        (conflict "This device was just assigned to another active request.")
  (entry, db3) ←
      append env
        (record (log_args item.id DeviceLogEvent.client_assigned (some actor_id)
          ActorRole.it_admin) {
            request_id = some created_request.id;
            from_value = some (status_value DeviceStatus.available);
            to_value = some (status_value DeviceStatus.assigned);
          })
        db2
  ok (created_request, db3)
