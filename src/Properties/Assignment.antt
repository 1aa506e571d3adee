-- ===== src/Properties/Assignment.antt =====
-- Assigning devices: app/services/assignment_service.py.
use asset_pilot_fastapi.Table.Laws.{find-append, find-key, find-replace_found}
use asset_pilot_fastapi.Outcomes.Assignment.{
  direct_assign-DirectlyAssigned, assigned_args, assign-Assigned,
}
use asset_pilot_fastapi.Result.Ensures.{of_Ensures}
use asset_pilot_fastapi.Enums.{OwnerType, DeviceLogEvent, DeviceStatus, RequestStatus}
use asset_pilot_fastapi.Result.{ok}
use asset_pilot_fastapi.Services.Assignment.{direct_assign, direct_request, assign}
use asset_pilot_fastapi.Models.{User, DeviceLog, Item, Request}
use asset_pilot_fastapi.Database.{item_key, request_key, Db, Env}
use asset_pilot_fastapi.Services.DeviceLog.{log_row}
use asset_pilot_fastapi.Repositories.{get_user, get_item, get_request}
use asset_pilot_fastapi.Prelude.{
  ==_refl, none, true, arith, refl, [], ◌∷◌, ◌∷◌, ◌++◌, ◌++◌, some, ◌≡◌, ◌≡◌, Bool, ℕ,
}

-- If `assign` returns, the request it was called for waited for IT approval and the device it was called with was available and of the requested category; the request stored is the one returned, assigned to the device from the first to the last day given; the device is stored as assigned and owned by the requester; and the log has one entry more, about this device, request and actor.
pub assign-stored :
    (env : Env) (request_id item_id assigned_from assigned_to : ℕ) (is_wfh : Bool) (actor_id : ℕ)
    (db db' : Db) (result : Request)
    → assign env request_id item_id assigned_from assigned_to is_wfh actor_id db ≡ ok (result, db')
    → (old : Request) × (item : Item) × (new_item : Item) × (entry : DeviceLog) × (get_request
          request_id db
        ≡ some old)
      × (old.status ≡ RequestStatus.pending_it_approval)
      × (get_item item_id db ≡ some item)
      × (item.status ≡ DeviceStatus.available)
      × (item.category_id ≡ old.category_id)
      × (get_request request_id db' ≡ some result)
      × (result.status ≡ RequestStatus.assigned)
      × (result.requester_id ≡ old.requester_id)
      × (result.assigned_item_id ≡ some item_id)
      × (result.assigned_from ≡ some assigned_from)
      × (result.assigned_to ≡ some assigned_to)
      × (get_item item_id db' ≡ some new_item)
      × (new_item.status ≡ DeviceStatus.assigned)
      × (new_item.current_owner_id ≡ some old.requester_id)
      × (db'.device_logs ≡ db.device_logs ++ entry ∷ [])
      × (entry.item_id ≡ item_id)
      × (entry.request_id ≡ some request_id)
      × (entry.actor_id ≡ some actor_id)
unfolding get_request get_item log_row
assign-stored env request_id item_id assigned_from assigned_to is_wfh actor_id db db' result h =
    let o =
      of_Ensures
        (assign-Assigned env request_id item_id assigned_from assigned_to is_wfh actor_id db)
        (result, db') h in
    let new_item = record o.item {
      status = DeviceStatus.assigned;
      current_owner_id = some o.request.requester_id;
      updated_at = o.item_time;
    } in
    (
      o.request,
      o.item,
      new_item,
      log_row env (assigned_args o.item.id o.request.id actor_id DeviceLogEvent.assigned) db,
      o.request_found,
      o.pending,
      o.item_found,
      o.available,
      o.same_category,
      rw o.database (
          find-replace_found request_key result request_id db.requests o.request_found
            (ground (arith, o.result))),
      ground (arith, o.result),
      ground (arith, o.result),
      ground (arith, o.result),
      ground (arith, o.result),
      ground (arith, o.result),
      rw o.database (find-replace_found item_key new_item item_id db.items o.item_found refl),
      refl,
      refl,
      ground (arith, o.database),
      find-key item_key item_id db.items o.item_found,
      ground (arith, find-key request_key request_id db.requests {x = o.request} o.request_found),
      refl,
    )

-- If `direct_assign` returns, the device belongs to a client and was available, the employee is active, and a new request is stored, returned and assigned: the employee's, for this device, from the first to the last day given; and the device is stored as assigned and owned by the employee.
pub direct_assign-stored :
    (env : Env) (item_id employee_id assigned_from assigned_to actor_id : ℕ) (db db' : Db)
    (result : Request)
    → direct_assign env item_id employee_id assigned_from assigned_to actor_id db ≡ ok (result, db')
    → (item : Item) × (employee : User) × (new_item : Item) × (get_item item_id db ≡ some item)
      × (item.owner_type ≡ OwnerType.client)
      × (item.status ≡ DeviceStatus.available)
      × (get_user employee_id db ≡ some employee)
      × (employee.is_active ≡ true)
      × (get_request result.id db ≡ none)
      × (get_request result.id db' ≡ some result)
      × (result.requester_id ≡ employee_id)
      × (result.assigned_item_id ≡ some item_id)
      × (result.assigned_from ≡ some assigned_from)
      × (result.assigned_to ≡ some assigned_to)
      × (result.status ≡ RequestStatus.assigned)
      × (get_item item_id db' ≡ some new_item)
      × (new_item.status ≡ DeviceStatus.assigned)
      × (new_item.current_owner_id ≡ some employee_id)
unfolding get_request get_item direct_request
direct_assign-stored env item_id employee_id assigned_from assigned_to actor_id db db' result h =
    let o =
      of_Ensures
        (direct_assign-DirectlyAssigned env item_id employee_id assigned_from assigned_to actor_id
          db)
        (result, db') h in
    let new_item = record o.item {
      status = DeviceStatus.assigned;
      current_owner_id = some employee_id;
      updated_at = o.item_time;
    } in
    (
      o.item,
      o.employee,
      new_item,
      o.item_found,
      o.client,
      o.available,
      o.employee_found,
      o.active,
      o.fresh,
      ground (
        arith,
        o.database,
        o.fresh,
        find-append request_key result result.id db.requests,
        ==_refl result.id,
      ),
      ground (arith, o.result),
      ground (arith, o.result),
      ground (arith, o.result),
      ground (arith, o.result),
      ground (arith, o.result),
      rw o.database (find-replace_found item_key new_item item_id db.items o.item_found refl),
      refl,
      refl,
    )
