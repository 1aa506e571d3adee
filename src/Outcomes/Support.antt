-- ===== src/Outcomes/Support.antt =====
-- The outcomes of the support service.
use asset_pilot_fastapi.Outcomes.Writes.{append-Logged}
use asset_pilot_fastapi.Repositories.Laws.{update_item-ok, update_request-ok}
use asset_pilot_fastapi.Table.{replace}
use asset_pilot_fastapi.Result.Ensures.{
  returns, then-Ensures, bind-Ensures, or_raise-Ensures, raise_if-Ensures, Ensures,
}
use asset_pilot_fastapi.Repositories.{get_request, get_item}
use asset_pilot_fastapi.Models.{SupportRequest, Item, Request}
use asset_pilot_fastapi.Services.DeviceLog.{log_row, log_args, LogArgs}
use asset_pilot_fastapi.Enums.{RequestStatus, status_value, ActorRole, DeviceLogEvent, DeviceStatus}
use asset_pilot_fastapi.Database.{request_key, item_key, Db, Env}
use asset_pilot_fastapi.Prelude.{[], arith, ◌∷◌, none, ◌∷◌, ◌++◌, ◌++◌, ◌≡◌, some, ◌≡◌, ℕ}
use asset_pilot_fastapi.Services.Support.{repair_in_place, start_repair, mark_lost}

-- The log entry of a status that changes with a ticket.
abbrev pub status_changed_args : ℕ → ℕ → DeviceStatus → DeviceStatus → ℕ → LogArgs
status_changed_args item_id ticket_id from_status to_status actor_id =
    record (log_args item_id DeviceLogEvent.status_changed (some actor_id) ActorRole.it_admin) {
      support_request_id = some ticket_id;
      from_value = some (status_value from_status);
      to_value = some (status_value to_status);
    }

-- A device that is given another status, with one entry of the log.
pub record Restatused (env : Env) (item : Item) (status : DeviceStatus) (a : LogArgs) (db db' : Db)
    : Type 0 where
  pub item_time : ℕ
  pub database : db' ≡ record db {
    items = replace item_key (record item { status = status; updated_at = item_time }) db.items;
    device_logs = db.device_logs ++ log_row env a db ∷ [];
  }

module _ (env : Env) (ticket : SupportRequest) (actor_id : ℕ) (db : Db) where
  pub record SentToRepair (p : Unit {0} × Db) : Type 0 where
    pub item : Item
    pub item_found : get_item ticket.item_id db ≡ some item
    pub changed :
        Restatused env item DeviceStatus.under_repair
          (status_changed_args item.id ticket.id item.status DeviceStatus.under_repair actor_id)
          db
          p.1

  pub start_repair-SentToRepair : Ensures SentToRepair (start_repair env ticket actor_id db)
  unfolding start_repair log_row
  start_repair-SentToRepair = or_raise-Ensures _ _ _ λ item item_found. bind-Ensures _ _ λ p wrote.
      then-Ensures _ _ (append-Logged env _ p.1) λ q logged.
        let (stamped, database, unique) = update_item-ok env _ db {row = p.0} {db' = p.1} wrote in
        returns (record {
          item = item;
          item_found = item_found;
          changed = record { item_time = p.0.updated_at; database = ground (arith, logged) };
        })

module _ (env : Env) (ticket : SupportRequest) (item : Item) (actor_id : ℕ) (db : Db) where
  pub record Repaired (p : Unit {0} × Db) : Type 0 where
    pub in_repair : item.status ≡ DeviceStatus.under_repair
    pub changed :
        Restatused env item DeviceStatus.assigned
          (status_changed_args item.id ticket.id DeviceStatus.under_repair DeviceStatus.assigned
            actor_id)
          db
          p.1

  pub repair_in_place-Repaired : Ensures Repaired (repair_in_place env ticket item actor_id db)
  unfolding repair_in_place log_row
  repair_in_place-Repaired = raise_if-Ensures _ _ _ λ in_repair. bind-Ensures _ _ λ p wrote.
      then-Ensures _ _ (append-Logged env _ p.1) λ q logged.
        let (stamped, database, unique) = update_item-ok env _ db {row = p.0} {db' = p.1} wrote in
        returns (record {
          in_repair = ground arith;
          changed = record { item_time = p.0.updated_at; database = ground (arith, logged) };
        })

  abbrev pub lost_args : ℕ → LogArgs
  lost_args request_id =
      record (log_args item.id DeviceLogEvent.marked_lost (some actor_id) ActorRole.it_admin) {
        request_id = some request_id;
        support_request_id = some ticket.id;
        from_value = some (status_value item.status);
        to_value = some (status_value DeviceStatus.lost);
      }

  pub record MarkedLost (p : Unit {0} × Db) : Type 0 where
    pub request_id : ℕ
    pub tied : ticket.request_id ≡ some request_id
    pub request : Request
    pub request_found : get_request request_id db ≡ some request
    pub item_time : ℕ
    pub request_time : ℕ
    pub database : p.1 ≡ record db {
      items =
          replace item_key
            (record item { status = DeviceStatus.lost; updated_at = item_time })
            db.items;
      requests =
          replace request_key
            (record request {
              status = RequestStatus.completed;
              completed_at = some (env.clock 0);
              completed_by = some actor_id;
              completed_next_status = none;
              updated_at = request_time;
            })
            db.requests;
      device_logs = db.device_logs ++ log_row env (lost_args request.id) db ∷ [];
    }

  pub mark_lost-MarkedLost : Ensures MarkedLost (mark_lost env ticket item actor_id db)
  unfolding mark_lost log_row
  mark_lost-MarkedLost = or_raise-Ensures _ _ _ λ request_id tied.
      or_raise-Ensures _ _ _ λ request found. bind-Ensures _ _ λ p wrote_item.
        bind-Ensures _ _ λ q wrote. then-Ensures _ _ (append-Logged env _ q.1) λ u logged.
          let (item_stamped, item_database, unique) =
            update_item-ok env _ db {row = p.0} {db' = p.1} wrote_item in
          let (stamped, database, free) =
            update_request-ok env _ p.1 {row = q.0} {db' = q.1} wrote in
          returns (record {
            request_id = request_id;
            tied = tied;
            request = request;
            request_found = found;
            item_time = p.0.updated_at;
            request_time = q.0.updated_at;
            database = ground (arith, logged);
          })
