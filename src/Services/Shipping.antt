-- ===== src/Services/Shipping.antt =====
-- app/services/shipping_service.py: outbound shipping, delivery, and returns with the closing of the
-- device's open support tickets.
use asset_pilot_fastapi.Prelude.{ℕ, suc, String, Bool, true, false, not, none, some, List, [], ◌∷◌}
use asset_pilot_fastapi.Result.{Result, ok, ◌>>=◌, ◌>>◌, raise_if, or_raise, conflict, validation}
use asset_pilot_fastapi.Enums.{
  DeviceStatus, RequestStatus, SupportStatus, DeviceLogEvent, ActorRole, status_value,
}
use asset_pilot_fastapi.Models.{Item, Request, SupportRequest, text}
use asset_pilot_fastapi.Database.{Db, Env}
use asset_pilot_fastapi.Repositories.{update_request, update_item, update_support_request}
use asset_pilot_fastapi.Repositories.Support.{list_open_for_item}
use asset_pilot_fastapi.Services.DeviceLog.{append, log_args}
use asset_pilot_fastapi.Services.Lookup.{device_is, get_request_or_404, get_item_or_404}

unfoldable pub get_assigned_item_or_404 : Request → Db → Result Item
unfolding get_item_or_404
get_assigned_item_or_404 request db = do
  item_id ← or_raise request.assigned_item_id (conflict "This request has no assigned device.")
  get_item_or_404 item_id db

-- The two writes that every operation of the service begins with.
unfoldable pub save_both : Env → Request → Item → Db → Result (Request × Db)
save_both env request item db = do
  (updated_request, db1) ← update_request env request db
  (updated_item, db2) ← update_item env item db1
  ok (updated_request, db2)

unfoldable pub ship : Env → ℕ → String → ℕ → Db → Result (Request × Db)
unfolding get_request_or_404
ship env request_id ship_tracking_url actor_id db = do
  request ← get_request_or_404 request_id db
  raise_if (not request.is_wfh) (validation "Only WFH requests can be shipped.")
  item ← get_assigned_item_or_404 request db
  raise_if (not (device_is item.status DeviceStatus.assigned))
      (conflict "Only assigned devices can be marked shipped.")
  (updated_request, db2) ←
      save_both env
        (record request {
          ship_tracking_url = some ship_tracking_url;
          ship_initiated_at = some (env.clock 0);
        })
        (record item { status = DeviceStatus.shipping_pending }) db
  (entry, db3) ←
      append env
        (record (log_args item.id DeviceLogEvent.ship_outbound_initiated (some actor_id)
          ActorRole.it_admin) {
            request_id = some updated_request.id;
            from_value = some (status_value DeviceStatus.assigned);
            to_value = some (status_value DeviceStatus.shipping_pending);
            metadata = some (("ship_tracking_url", text ship_tracking_url) ∷ []);
          })
        db2
  ok (updated_request, db3)

unfoldable pub confirm_delivery : Env → ℕ → ℕ → Db → Result (Request × Db)
unfolding get_request_or_404
confirm_delivery env request_id actor_id db = do
  request ← get_request_or_404 request_id db
  item ← get_assigned_item_or_404 request db
  raise_if (not (device_is item.status DeviceStatus.shipping_pending))
      (conflict "Only devices currently shipping_pending can have delivery confirmed.")
  (updated_request, db2) ←
      save_both env (record request { ship_completed_at = some (env.clock 0) })
        (record item { status = DeviceStatus.assigned }) db
  (entry, db3) ←
      append env
        (record (log_args item.id DeviceLogEvent.ship_outbound_completed (some actor_id)
          ActorRole.it_admin) {
            request_id = some updated_request.id;
            from_value = some (status_value DeviceStatus.shipping_pending);
            to_value = some (status_value DeviceStatus.assigned);
          })
        db2
  ok (updated_request, db3)

-- One round of the loop of `_auto_close_open_support`; `i` is the number of the clock's reading.
unfoldable pub auto_close_ticket : Env → ℕ → ℕ → SupportRequest → Db → Result (Unit {0} × Db)
auto_close_ticket env item_id i ticket db = do
  (updated, db1) ←
      update_support_request env
        (record ticket {
          status = SupportStatus.resolved;
          auto_closed = true;
          resolved_at = some (env.clock i);
        })
        db
  (entry, db2) ←
      append env
        (record (log_args item_id DeviceLogEvent.support_auto_closed none ActorRole.system) {
          support_request_id = some ticket.id;
        })
        db1
  ok (tt, db2)

unfoldable pub auto_close_tickets : Env → ℕ → ℕ → List SupportRequest → Db → Result (Unit {0} × Db)
auto_close_tickets env item_id i [] db = ok (tt, db)
auto_close_tickets env item_id i (ticket ∷ tickets) db =
    auto_close_ticket env item_id i ticket db >>= λ p.
    auto_close_tickets env item_id (suc i) tickets p.1

unfoldable pub auto_close_open_support : Env → ℕ → ℕ → Db → Result (Unit {0} × Db)
auto_close_open_support env item_id i db =
    auto_close_tickets env item_id i (list_open_for_item item_id db) db

-- `_RETURN_ELIGIBLE_STATUSES`
abbrev pub is_return_eligible : DeviceStatus → Bool
is_return_eligible DeviceStatus.assigned = true
is_return_eligible DeviceStatus.return_shipping_pending = true
is_return_eligible _ = false

-- The log entries of a completed return.
unfoldable pub log_return :
    Env → ℕ → ℕ → DeviceStatus → DeviceStatus → ℕ → Db → Result (Unit {0} × Db)
log_return env item_id request_id from_status next_status actor_id db = do
  (received, db1) ←
      append env
        (record (log_args item_id DeviceLogEvent.return_received (some actor_id)
          ActorRole.it_admin) {
            request_id = some request_id;
            from_value = some (status_value from_status);
            to_value = some (status_value next_status);
          })
        db
  (completed, db2) ←
      append env
        (record (log_args item_id DeviceLogEvent.assignment_completed (some actor_id)
          ActorRole.it_admin) { request_id = some request_id })
        db1
  ok (tt, db2)

unfoldable pub complete_return : Env → ℕ → DeviceStatus → ℕ → Db → Result (Request × Db)
unfolding get_request_or_404
complete_return env request_id next_status actor_id db = do
  request ← get_request_or_404 request_id db
  item ← get_assigned_item_or_404 request db
  raise_if (not (is_return_eligible item.status)) (
      conflict
        "Device must be assigned (on-site) or return_shipping_pending (WFH) to complete a return.")
  (updated_request, db2) ←
      save_both env
        (record request {
          status = RequestStatus.completed;
          completed_at = some (env.clock 0);
          completed_by = some actor_id;
          completed_next_status = some next_status;
        })
        (record item { status = next_status; current_owner_id = none }) db
  (logged, db3) ← log_return env item.id updated_request.id item.status next_status actor_id db2
  (closed, db4) ← auto_close_open_support env item.id 1 db3
  ok (updated_request, db4)
