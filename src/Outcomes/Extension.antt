-- ===== src/Outcomes/Extension.antt =====
-- The outcomes of the extension service.
use asset_pilot_fastapi.Outcomes.Writes.{append-Logged}
use asset_pilot_fastapi.Repositories.Laws.{update_request-ok, update_extension_request-ok}
use asset_pilot_fastapi.Table.{replace}
use asset_pilot_fastapi.Result.Ensures.{
  returns, map-Ensures, then-Ensures, bind-Ensures, raise_if-Ensures, or_raise-Ensures, Ensures,
}
use asset_pilot_fastapi.Repositories.{get_request, get_extension_request}
use asset_pilot_fastapi.Models.{ExtensionRequest, Request}
use asset_pilot_fastapi.Services.DeviceLog.{log_row, log_args, LogArgs}
use asset_pilot_fastapi.Database.{extension_key, request_key, Db, Env}
use asset_pilot_fastapi.Enums.{ActorRole, ExtensionStatus, DeviceLogEvent}
use asset_pilot_fastapi.Prelude.{
  refl, arith, [], ◌∷◌, ◌∷◌, true, ◌++◌, ◌++◌, ◌≡◌, false, ◌≡◌, some, String, Option, ℕ,
}
use asset_pilot_fastapi.Services.Extension.{allows_it_approval, log_decision, approve, reject}

-- The log entry of a decision.
abbrev pub decision_args : DeviceLogEvent → ℕ → ℕ → ℕ → ℕ → LogArgs
decision_args event item_id request_id extension_id actor_id =
    record (log_args item_id event (some actor_id) ActorRole.it_admin) {
      request_id = some request_id;
      extension_request_id = some extension_id;
      is_milestone = some false;
    }

module _ (env : Env) (extension_request_id : ℕ) (it_note : Option String) (actor_id : ℕ)
    (db : Db) where
  -- The decided row.
  abbrev pub decided : ExtensionStatus → ExtensionRequest → ExtensionRequest
  decided status x = record x {
    status = status;
    it_decided_by = some actor_id;
    it_note = it_note;
    it_decided_at = some (env.clock 0);
  }

  pub record Approved (p : ExtensionRequest × Db) : Type 0 where
    pub extension : ExtensionRequest
    pub parent : Request
    pub extension_found : get_extension_request extension_request_id db ≡ some extension
    pub pending : extension.status ≡ ExtensionStatus.pending
    pub allowed : allows_it_approval extension.mgr_approval_status ≡ true
    pub parent_found : get_request extension.original_request_id db ≡ some parent
    pub result :
        p.0 ≡ record (decided ExtensionStatus.approved extension) { updated_at = p.0.updated_at }
    pub parent_time : ℕ
    pub item_id : ℕ
    pub has_item : parent.assigned_item_id ≡ some item_id
    pub database : p.1 ≡ record db {
      requests =
          replace request_key
            (record parent { assigned_to = some extension.extended_to; updated_at = parent_time })
            db.requests;
      extension_requests = replace extension_key p.0 db.extension_requests;
      device_logs =
          db.device_logs
          ++ log_row env
              (decision_args DeviceLogEvent.extension_approved item_id parent.id extension.id
                actor_id)
              db
            ∷ [];
    }

  pub record Refused (p : ExtensionRequest × Db) : Type 0 where
    pub extension : ExtensionRequest
    pub parent : Request
    pub extension_found : get_extension_request extension_request_id db ≡ some extension
    pub pending : extension.status ≡ ExtensionStatus.pending
    pub parent_found : get_request extension.original_request_id db ≡ some parent
    pub result :
        p.0 ≡ record (decided ExtensionStatus.rejected extension) { updated_at = p.0.updated_at }
    pub item_id : ℕ
    pub has_item : parent.assigned_item_id ≡ some item_id
    pub database : p.1 ≡ record db {
      extension_requests = replace extension_key p.0 db.extension_requests;
      device_logs =
          db.device_logs
          ++ log_row env
              (decision_args DeviceLogEvent.extension_rejected item_id parent.id extension.id
                actor_id)
              db
            ∷ [];
    }

-- The end of a decision: the device of the parent, and one entry of the log.
log_decision-ok :
    (env : Env) (event : DeviceLogEvent) (parent : Request) (x : ExtensionRequest) (actor_id : ℕ)
    (db : Db)
    → Ensures
        (λ p.
          (p.0 ≡ x)
          × (item_id : ℕ) × (parent.assigned_item_id ≡ some item_id)
          × (p.1 ≡ record db {
            device_logs =
                db.device_logs
                ++ log_row env (decision_args event item_id parent.id x.id actor_id) db ∷ [];
          }))
        (log_decision env event parent x actor_id db)
unfolding log_decision
log_decision-ok env event parent x actor_id db = or_raise-Ensures _ _ _ λ item_id booked.
    then-Ensures _ _ (append-Logged env _ db) λ p logged. returns (refl, item_id, booked, logged)

module _ (env : Env) (extension_request_id : ℕ) (it_note : Option String) (actor_id : ℕ)
    (db : Db) where
  pub approve-Approved :
      Ensures
        (Approved env extension_request_id it_note actor_id db)
        (approve env extension_request_id it_note actor_id db)
  unfolding approve log_row
  approve-Approved = or_raise-Ensures _ _ _ λ extension found. raise_if-Ensures _ _ _ λ pending.
      raise_if-Ensures _ _ _ λ allowed. or_raise-Ensures _ _ _ λ parent parent_found.
        bind-Ensures _ _ λ p wrote. bind-Ensures _ _ λ q decided_row.
          let (stamped, database, free) =
            update_request-ok env _ db {row = p.0} {db' = p.1} wrote in
          let (x_stamped, x_database) =
            update_extension_request-ok env _ p.1 {row = q.0} {db' = q.1} decided_row in
          map-Ensures _ (log_decision-ok env _ p.0 q.0 actor_id q.1) λ u logged. record {
            extension = extension;
            parent = parent;
            extension_found = found;
            pending = ground arith;
            allowed = ground arith;
            parent_found = parent_found;
            result = ground (arith, logged.0);
            parent_time = p.0.updated_at;
            item_id = logged.1;
            has_item = ground (arith, logged.2);
            database = ground (arith, logged.3, logged.0);
          }

  pub reject-Refused :
      Ensures
        (Refused env extension_request_id it_note actor_id db)
        (reject env extension_request_id it_note actor_id db)
  unfolding reject log_row
  reject-Refused = or_raise-Ensures _ _ _ λ extension found. raise_if-Ensures _ _ _ λ pending.
      or_raise-Ensures _ _ _ λ parent parent_found. bind-Ensures _ _ λ q decided_row.
        let (x_stamped, x_database) =
          update_extension_request-ok env _ db {row = q.0} {db' = q.1} decided_row in
        map-Ensures _ (log_decision-ok env _ parent q.0 actor_id q.1) λ u logged. record {
          extension = extension;
          parent = parent;
          extension_found = found;
          pending = ground arith;
          parent_found = parent_found;
          result = ground (arith, logged.0);
          item_id = logged.1;
          has_item = logged.2;
          database = ground (arith, logged.3, logged.0);
        }
