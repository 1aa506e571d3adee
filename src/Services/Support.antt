-- ===== src/Services/Support.antt =====
-- app/services/support_service.py: starting a support ticket and resolving it in one of four ways.
use asset_pilot_fastapi.Prelude.{
  ℕ, String, ◌==◌, Bool, true, not, Option, none, some, [], ◌∷◌, same,
}
use asset_pilot_fastapi.Result.{
  Result, ok, ◌>>=◌, ◌>>◌, raise_if, or_raise, conflict, validation, not_found, assertion_error,
}
use asset_pilot_fastapi.Enums.{
  DeviceStatus, RequestStatus, SupportStatus, SupportStatus-discrete, SupportType,
  SupportResolution, DeviceLogEvent, ActorRole, status_value,
}
use asset_pilot_fastapi.Models.{Item, Request, SupportRequest, id_text}
use asset_pilot_fastapi.Database.{Db, Env}
use asset_pilot_fastapi.Repositories.{
  get_support_request, get_request, update_request, update_item, update_support_request,
}
use asset_pilot_fastapi.Services.DeviceLog.{append, log_args}
use asset_pilot_fastapi.Services.Lookup.{device_is, get_item_or_404}

abbrev pub ticket_is : SupportStatus → SupportStatus → Bool
ticket_is = same SupportStatus-discrete

unfoldable pub get_ticket_or_404 : ℕ → Db → Result SupportRequest
get_ticket_or_404 k db =
    or_raise (get_support_request k db) (not_found "Support request not found.")

-- A ticket for damage sends its device to repair.
unfoldable pub start_repair : Env → SupportRequest → ℕ → Db → Result (Unit {0} × Db)
unfolding get_item_or_404
start_repair env ticket actor_id db = do
  item ← get_item_or_404 ticket.item_id db
  (updated_item, db1) ← update_item env (record item { status = DeviceStatus.under_repair }) db
  (entry, db2) ←
      append env
        (record (log_args item.id DeviceLogEvent.status_changed (some actor_id)
          ActorRole.it_admin) {
            support_request_id = some ticket.id;
            from_value = some (status_value item.status);
            to_value = some (status_value DeviceStatus.under_repair);
          })
        db1
  ok (tt, db2)

-- What `start` does by the type of the ticket.
unfoldable pub start_by_type : Env → SupportType → SupportRequest → ℕ → Db → Result (Unit {0} × Db)
start_by_type env SupportType.damage ticket actor_id db = start_repair env ticket actor_id db
start_by_type env SupportType.update ticket actor_id db = ok (tt, db)
start_by_type env SupportType.lost ticket actor_id db = ok (tt, db)

unfoldable pub start : Env → ℕ → ℕ → Db → Result (SupportRequest × Db)
unfolding get_ticket_or_404
start env support_request_id actor_id db = do
  ticket ← get_ticket_or_404 support_request_id db
  raise_if (not (ticket_is ticket.status SupportStatus.open_status))
      (conflict "Only open support requests can be started.")
  (updated, db1) ←
      update_support_request env (record ticket { status = SupportStatus.in_progress }) db
  (started, db2) ← start_by_type env ticket.type updated actor_id db1
  ok (updated, db2)

unfoldable pub repair_in_place : Env → SupportRequest → Item → ℕ → Db → Result (Unit {0} × Db)
repair_in_place env ticket item actor_id db = do
  raise_if (not (device_is item.status DeviceStatus.under_repair))
      (conflict "Only a device currently under_repair can be resolved as repaired_in_place.")
  (updated_item, db1) ← update_item env (record item { status = DeviceStatus.assigned }) db
  (entry, db2) ←
      append env
        (record (log_args item.id DeviceLogEvent.status_changed (some actor_id)
          ActorRole.it_admin) {
            support_request_id = some ticket.id;
            from_value = some (status_value DeviceStatus.under_repair);
            to_value = some (status_value DeviceStatus.assigned);
          })
        db1
  ok (tt, db2)

-- The three writes of `_swap`.
unfoldable pub save_swap : Env → Request → Item → Item → Db → Result (Unit {0} × Db)
save_swap env request old_item new_item db = do
  (updated_request, db1) ← update_request env request db
  (updated_old, db2) ← update_item env old_item db1
  (updated_new, db3) ← update_item env new_item db2
  ok (tt, db3)

-- The two log entries of `_swap`.
unfoldable pub log_swap : Env → SupportRequest → ℕ → ℕ → ℕ → ℕ → Db → Result (Unit {0} × Db)
log_swap env ticket request_id old_id new_id actor_id db = do
  (swapped_out, db1) ←
      append env
        (record (log_args old_id DeviceLogEvent.swapped_out (some actor_id) ActorRole.it_admin) {
          request_id = some request_id;
          support_request_id = some ticket.id;
          metadata = some (("swapped_to_item_id", id_text new_id) ∷ []);
          is_milestone = some true;
        })
        db
  (swapped_in, db2) ←
      append env
        (record (log_args new_id DeviceLogEvent.swapped_in (some actor_id) ActorRole.it_admin) {
          request_id = some request_id;
          support_request_id = some ticket.id;
          metadata = some (("swapped_from_item_id", id_text old_id) ∷ []);
          is_milestone = some true;
        })
        db1
  ok (tt, db2)

unfoldable pub swap :
    Env → SupportRequest → Item → ℕ → DeviceStatus → ℕ → Db → Result (Unit {0} × Db)
unfolding get_item_or_404
swap env ticket old_item swapped_to_item_id old_item_next_status actor_id db = do
  raise_if (swapped_to_item_id == old_item.id) (validation "Cannot swap a device for itself.")
  request_id ←
      or_raise ticket.request_id (conflict "This support request has no tied request to repoint.")
  new_item ← get_item_or_404 swapped_to_item_id db
  raise_if (not (new_item.category_id == old_item.category_id))
      (validation "The swap target must be in the same category as the device.")
  raise_if (not (device_is new_item.status DeviceStatus.available))
      (conflict "The swap target must be an available device.")
  request ← or_raise (get_request request_id db) (not_found "The tied request was not found.")
  (saved, db3) ←
      save_swap env (record request { assigned_item_id = some new_item.id })
        (record old_item { status = old_item_next_status; current_owner_id = none })
        (record new_item {
          status = DeviceStatus.assigned;
          current_owner_id = some request.requester_id;
        })
        db
  log_swap env ticket request.id old_item.id new_item.id actor_id db3

unfoldable pub mark_lost : Env → SupportRequest → Item → ℕ → Db → Result (Unit {0} × Db)
mark_lost env ticket item actor_id db = do
  request_id ←
      or_raise ticket.request_id (conflict "This support request has no tied request to complete.")
  request ← or_raise (get_request request_id db) (not_found "The tied request was not found.")
  (updated_item, db1) ← update_item env (record item { status = DeviceStatus.lost }) db
  (updated_request, db2) ←
      update_request env
        (record request {
          status = RequestStatus.completed;
          completed_at = some (env.clock 0);
          completed_by = some actor_id;
          completed_next_status = none;
        })
        db1
  (entry, db3) ←
      append env
        (record (log_args item.id DeviceLogEvent.marked_lost (some actor_id) ActorRole.it_admin) {
          request_id = some request.id;
          support_request_id = some ticket.id;
          from_value = some (status_value item.status);
          to_value = some (status_value DeviceStatus.lost);
        })
        db2
  ok (tt, db3)

-- The branches of `resolve` that touch a device.
unfoldable pub resolve_device :
    Env
    → SupportResolution
    → SupportRequest
    → Item
    → Option ℕ
    → Option DeviceStatus
    → ℕ
    → Db
    → Result (Unit {0} × Db)
resolve_device env SupportResolution.remote_resolved ticket item swapped_to next_status actor_id
      db =
    ok (tt, db)
resolve_device env SupportResolution.repaired_in_place ticket item swapped_to next_status actor_id
      db =
    repair_in_place env ticket item actor_id db
resolve_device env SupportResolution.swapped ticket item swapped_to next_status actor_id db = do
  swapped_to_item_id ← or_raise swapped_to assertion_error
  old_item_next_status ← or_raise next_status assertion_error
  swap env ticket item swapped_to_item_id old_item_next_status actor_id db
resolve_device env SupportResolution.marked_lost ticket item swapped_to next_status actor_id db =
    mark_lost env ticket item actor_id db

-- How often the branch has read the clock.
abbrev pub readings : SupportResolution → ℕ
readings SupportResolution.marked_lost = 1
readings _ = 0

-- `ticket.swapped_to_item_id` after the resolution.
abbrev pub swapped_column : SupportResolution → Option ℕ → Option ℕ → Option ℕ
swapped_column SupportResolution.swapped swapped_to old = swapped_to
swapped_column _ swapped_to old = old

unfoldable pub resolve :
    Env
    → ℕ
    → SupportResolution
    → Option String
    → Option ℕ
    → Option DeviceStatus
    → ℕ
    → Db
    → Result (SupportRequest × Db)
unfolding get_ticket_or_404 get_item_or_404
resolve env support_request_id resolution it_note swapped_to next_status actor_id db = do
  ticket ← get_ticket_or_404 support_request_id db
  raise_if (ticket_is ticket.status SupportStatus.resolved)
      (conflict "This support request is already resolved.")
  item ← get_item_or_404 ticket.item_id db
  (done, db1) ← resolve_device env resolution ticket item swapped_to next_status actor_id db
  (updated, db2) ←
      update_support_request env
        (record ticket {
          status = SupportStatus.resolved;
          resolution = some resolution;
          it_note = it_note;
          resolved_by = some actor_id;
          resolved_at = some (env.clock (readings resolution));
          swapped_to_item_id = swapped_column resolution swapped_to ticket.swapped_to_item_id;
        })
        db1
  (entry, db3) ←
      append env
        (record (log_args item.id DeviceLogEvent.support_resolved (some actor_id)
          ActorRole.it_admin) { support_request_id = some updated.id })
        db2
  ok (updated, db3)
