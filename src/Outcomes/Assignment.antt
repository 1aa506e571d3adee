-- ===== src/Outcomes/Assignment.antt =====
-- The outcomes of the assignment service.
use asset_pilot_fastapi.Table.{find, replace}
use asset_pilot_fastapi.Repositories.Requests.{has_overlapping_assigned_booking}
use asset_pilot_fastapi.Outcomes.Writes.{
  save_direct_assignment-SavedDirect, append-Logged, save_assignment-SavedBoth,
}
use asset_pilot_fastapi.Repositories.{get_user, get_item, get_request}
use asset_pilot_fastapi.Result.Ensures.{
  returns, then-Ensures, try-Ensures, raise_if-Ensures, or_raise-Ensures, Ensures,
}
use asset_pilot_fastapi.Services.Assignment.{direct_request, direct_assign, assign}
use asset_pilot_fastapi.Models.{User, Item, Request}
use asset_pilot_fastapi.Services.DeviceLog.{log_row, log_args, LogArgs}
use asset_pilot_fastapi.Database.{item_key, request_key, Db, Env}
use asset_pilot_fastapi.Enums.{
  OwnerType, RequestStatus, DeviceStatus, status_value, ActorRole, DeviceLogEvent,
}
use asset_pilot_fastapi.Prelude.{true, none, [], ◌∷◌, ◌++◌, arith, false, ◌≡◌, some, Bool, ℕ}

-- The log entry of an assignment.
abbrev pub assigned_args : ℕ → ℕ → ℕ → DeviceLogEvent → LogArgs
assigned_args item_id request_id actor_id event =
    record (log_args item_id event (some actor_id) ActorRole.it_admin) {
      request_id = some request_id;
      from_value = some (status_value DeviceStatus.available);
      to_value = some (status_value DeviceStatus.assigned);
    }

module _ (env : Env) (request_id item_id assigned_from assigned_to : ℕ) (is_wfh : Bool)
    (actor_id : ℕ) (db : Db) where
  -- An assignment that went through: what it found, and what it wrote.
  pub record Assigned (p : Request × Db) : Type 0 where
    pub request : Request
    pub item : Item
    pub request_found : get_request request_id db ≡ some request
    pub item_found : get_item item_id db ≡ some item
    pub pending : request.status ≡ RequestStatus.pending_it_approval
    pub available : item.status ≡ DeviceStatus.available
    pub same_category : item.category_id ≡ request.category_id
    pub free :
        has_overlapping_assigned_booking item_id assigned_from assigned_to (some request.id) db
        ≡ false
    pub result : p.0 ≡ record request {
      assigned_item_id = some item_id;
      assigned_from = some assigned_from;
      assigned_to = some assigned_to;
      is_wfh = is_wfh;
      it_decided_by = some actor_id;
      it_decided_at = some (env.clock 0);
      status = RequestStatus.assigned;
      updated_at = p.0.updated_at;
    }
    pub item_time : ℕ
    pub database : p.1 ≡ record db {
      requests = replace request_key p.0 db.requests;
      items =
          replace item_key
            (record item {
              status = DeviceStatus.assigned;
              current_owner_id = some request.requester_id;
              updated_at = item_time;
            })
            db.items;
      device_logs =
          db.device_logs
          ++ log_row env (assigned_args item.id request.id actor_id DeviceLogEvent.assigned) db
            ∷ [];
    }

  pub assign-Assigned :
      Ensures Assigned (assign env request_id item_id assigned_from assigned_to is_wfh actor_id db)
  unfolding assign log_row
  assign-Assigned = or_raise-Ensures _ _ _ λ request found. raise_if-Ensures _ _ _ λ pending.
      or_raise-Ensures _ _ _ λ item item_found. raise_if-Ensures _ _ _ λ available.
        raise_if-Ensures _ _ _ λ category. raise_if-Ensures _ _ _ λ free.
          try-Ensures _ _ _ (save_assignment-SavedBoth env _ _ db) λ p saved.
            then-Ensures _ _ (append-Logged env _ p.1) λ q logged. returns (record {
              request = request;
              item = item;
              request_found = found;
              item_found = item_found;
              pending = ground arith;
              available = ground arith;
              same_category = ground arith;
              free = free;
              result = saved.0;
              item_time = saved.1;
              database = ground (arith, logged, saved.2);
            })

module _ (env : Env) (item_id employee_id assigned_from assigned_to actor_id : ℕ) (db : Db) where
  -- A direct assignment that went through.
  pub record DirectlyAssigned (p : Request × Db) : Type 0 where
    pub item : Item
    pub employee : User
    pub item_found : get_item item_id db ≡ some item
    pub client : item.owner_type ≡ OwnerType.client
    pub available : item.status ≡ DeviceStatus.available
    pub free : has_overlapping_assigned_booking item_id assigned_from assigned_to none db ≡ false
    pub employee_found : get_user employee_id db ≡ some employee
    pub active : employee.is_active ≡ true
    pub result :
        p.0 ≡ direct_request env item item_id employee_id assigned_from assigned_to actor_id db
    pub fresh : find request_key p.0.id db.requests ≡ none
    pub item_time : ℕ
    pub database : p.1 ≡ record db {
      requests = db.requests ++ p.0 ∷ [];
      items =
          replace item_key
            (record item {
              status = DeviceStatus.assigned;
              current_owner_id = some employee_id;
              updated_at = item_time;
            })
            db.items;
      device_logs =
          db.device_logs
          ++ log_row env (assigned_args item.id p.0.id actor_id DeviceLogEvent.client_assigned) db
            ∷ [];
    }

  pub direct_assign-DirectlyAssigned :
      Ensures DirectlyAssigned
        (direct_assign env item_id employee_id assigned_from assigned_to actor_id db)
  unfolding direct_assign log_row
  direct_assign-DirectlyAssigned = or_raise-Ensures _ _ _ λ item item_found.
      raise_if-Ensures _ _ _ λ client. raise_if-Ensures _ _ _ λ available.
        raise_if-Ensures _ _ _ λ free. or_raise-Ensures _ _ _ λ employee known.
          raise_if-Ensures _ _ _ λ active.
            try-Ensures _ _ _ (save_direct_assignment-SavedDirect env _ _ db) λ p saved.
              then-Ensures _ _ (append-Logged env _ p.1) λ q logged. returns (record {
                item = item;
                employee = employee;
                item_found = item_found;
                client = ground arith;
                available = ground arith;
                free = free;
                employee_found = known;
                active = ground arith;
                result = saved.0;
                fresh = ground (arith, saved.1);
                item_time = saved.2;
                database = ground (arith, logged, saved.3);
              })
