-- ===== src/Outcomes/Returns.antt =====
-- The outcome of a completed return.
use asset_pilot_fastapi.Outcomes.AutoClose.{ClosedTickets, auto_close_tickets-ClosedTickets}
use asset_pilot_fastapi.Repositories.Support.{list_open_for_item}
use asset_pilot_fastapi.Outcomes.Shipping.{AssignedItem, get_assigned_item_or_404-AssignedItem}
use asset_pilot_fastapi.Repositories.{get_request}
use asset_pilot_fastapi.Table.{replace}
use asset_pilot_fastapi.Enums.{RequestStatus, status_value, DeviceStatus, ActorRole, DeviceLogEvent}
use asset_pilot_fastapi.Services.DeviceLog.{LogArgs, log_args, log_row}
use asset_pilot_fastapi.Outcomes.Writes.{save_both-SavedBoth, append-Logged}
use asset_pilot_fastapi.Result.Ensures.{
  raise_if-Ensures, or_raise-Ensures, then-Ensures, returns, Ensures,
}
use asset_pilot_fastapi.Database.{item_key, request_key, Env, Db}
use asset_pilot_fastapi.Models.{Item, Request, DeviceLog}
use asset_pilot_fastapi.Services.Shipping.{
  is_return_eligible, auto_close_open_support, complete_return, log_return,
}
use asset_pilot_fastapi.Prelude.{refl, some, [], none, true, ◌++◌, arith, ◌∷◌, ◌≡◌, ℕ}
use mathlib.Core.Path.{subst}

-- The two log entries of a completed return.
abbrev pub received_args : ℕ → ℕ → DeviceStatus → DeviceStatus → ℕ → LogArgs
received_args item_id request_id from_status next_status actor_id =
    record (log_args item_id DeviceLogEvent.return_received (some actor_id) ActorRole.it_admin) {
      request_id = some request_id;
      from_value = some (status_value from_status);
      to_value = some (status_value next_status);
    }

abbrev pub completed_args : ℕ → ℕ → ℕ → LogArgs
completed_args item_id request_id actor_id =
    record (log_args item_id DeviceLogEvent.assignment_completed (some actor_id)
      ActorRole.it_admin) { request_id = some request_id }

log_return-ok :
    (env : Env) (item_id request_id : ℕ) (from_status next_status : DeviceStatus) (actor_id : ℕ)
    (db : Db)
    → Ensures
        (λ p.
          (first : DeviceLog) × (second : DeviceLog) × (first
            ≡ log_row env (received_args item_id request_id from_status next_status actor_id) db)
          × (second.item_id ≡ item_id)
          × (second.event_type ≡ DeviceLogEvent.assignment_completed)
          × (p.1 ≡ record db { device_logs = (db.device_logs ++ first ∷ []) ++ second ∷ [] }))
        (log_return env item_id request_id from_status next_status actor_id db)
unfolding log_return log_row
log_return-ok env item_id request_id from_status next_status actor_id db =
    then-Ensures _ _ (append-Logged env _ db) λ p first.
      then-Ensures _ _ (append-Logged env _ p.1) λ q second. returns (
        log_row env (received_args item_id request_id from_status next_status actor_id) db,
        log_row env (completed_args item_id request_id actor_id) p.1,
        refl,
        refl,
        refl,
        ground (arith, first, second),
      )

module _ (env : Env) (request_id : ℕ) (next_status : DeviceStatus) (actor_id : ℕ) (db : Db) where
  -- A return that went through.
  pub record Returned (p : Request × Db) : Type 0 where
    pub request : Request
    pub item : Item
    pub request_found : get_request request_id db ≡ some request
    pub item_found : AssignedItem request db item
    pub eligible : is_return_eligible item.status ≡ true
    pub result : p.0 ≡ record request {
      status = RequestStatus.completed;
      completed_at = some (env.clock 0);
      completed_by = some actor_id;
      completed_next_status = some next_status;
      updated_at = p.0.updated_at;
    }
    pub item_time : ℕ
    pub requests : p.1.requests ≡ replace request_key p.0 db.requests
    pub items :
        p.1.items
        ≡ replace item_key
            (record item { status = next_status; current_owner_id = none; updated_at = item_time })
            db.items
    pub users : p.1.users ≡ db.users
    pub received : DeviceLog
    pub completed : DeviceLog
    pub received_row :
        received
        ≡ log_row env (received_args item.id request.id item.status next_status actor_id) db
    pub completed_item : completed.item_id ≡ item.id
    pub completed_event : completed.event_type ≡ DeviceLogEvent.assignment_completed
    pub closed_tickets :
        ClosedTickets item.id
          (list_open_for_item item.id db)
          (record db {
            device_logs = (db.device_logs ++ received ∷ []) ++ completed ∷ [];
            requests = p.1.requests;
            items = p.1.items;
          })
          p.1

  pub complete_return-Returned :
      Ensures Returned (complete_return env request_id next_status actor_id db)
  unfolding complete_return auto_close_open_support log_row list_open_for_item
  complete_return-Returned = or_raise-Ensures _ _ _ λ request found.
      then-Ensures _ _ (get_assigned_item_or_404-AssignedItem request db) λ item item_found.
        raise_if-Ensures _ _ _ λ eligible.
          then-Ensures _ _ (save_both-SavedBoth env _ _ db) λ p saved.
            then-Ensures _ _ (log_return-ok env _ _ _ _ _ p.1) λ q logged.
              then-Ensures _ _ (auto_close_tickets-ClosedTickets env _ _ _ q.1) λ u closed.
                returns (record {
                  request = request;
                  item = item;
                  request_found = found;
                  item_found = item_found;
                  eligible = ground arith;
                  result = saved.0;
                  item_time = saved.1;
                  requests = ground (arith, closed.same_requests, logged.5, saved.2);
                  items = ground (arith, closed.same_items, logged.5, saved.2);
                  users = ground (arith, closed.same_users, logged.5, saved.2);
                  received = logged.0;
                  completed = logged.1;
                  received_row = ground (arith, logged.2, saved.2);
                  completed_item = logged.3;
                  completed_event = logged.4;
                  closed_tickets =
                      subst (λ (d : Db). ClosedTickets item.id (list_open_for_item item.id d) d u.1)
                        (ground (arith, closed.same_requests, closed.same_items, logged.5, saved.2))
                        closed;
                })
