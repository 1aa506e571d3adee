-- ===== src/Outcomes/Swap.antt =====
-- What `_swap` of app/services/support_service.py has found and written if it returns.
use asset_pilot_fastapi.Outcomes.Writes.{append-Logged}
use asset_pilot_fastapi.Repositories.Laws.{update_item-ok, update_request-ok}
use asset_pilot_fastapi.Table.{replace}
use asset_pilot_fastapi.Result.Ensures.{
  returns, map-Ensures, then-Ensures, bind-Ensures, or_raise-Ensures, raise_if-Ensures, Ensures,
}
use asset_pilot_fastapi.Repositories.{get_request, get_item}
use asset_pilot_fastapi.Models.{id_text, DeviceLog, SupportRequest, Item, Request}
use asset_pilot_fastapi.Services.DeviceLog.{log_row, log_args, LogArgs}
use asset_pilot_fastapi.Enums.{ActorRole, DeviceLogEvent, DeviceStatus}
use asset_pilot_fastapi.Database.{request_key, item_key, Db, Env}
use asset_pilot_fastapi.Prelude.{
  refl, true, [], arith, ◌∷◌, none, ◌∷◌, ◌++◌, ◌++◌, false, ◌==◌, ◌≡◌, ◌==◌, some, ◌≡◌, ℕ,
}
use asset_pilot_fastapi.Services.Support.{swap, log_swap, save_swap}

-- The log entries of a swap.
abbrev pub swapped_out_args : ℕ → ℕ → ℕ → ℕ → ℕ → LogArgs
swapped_out_args ticket_id request_id old_id new_id actor_id =
    record (log_args old_id DeviceLogEvent.swapped_out (some actor_id) ActorRole.it_admin) {
      request_id = some request_id;
      support_request_id = some ticket_id;
      metadata = some (("swapped_to_item_id", id_text new_id) ∷ []);
      is_milestone = some true;
    }

abbrev pub swapped_in_args : ℕ → ℕ → ℕ → ℕ → ℕ → LogArgs
swapped_in_args ticket_id request_id old_id new_id actor_id =
    record (log_args new_id DeviceLogEvent.swapped_in (some actor_id) ActorRole.it_admin) {
      request_id = some request_id;
      support_request_id = some ticket_id;
      metadata = some (("swapped_from_item_id", id_text old_id) ∷ []);
      is_milestone = some true;
    }

save_swap-ok :
    (env : Env) (r : Request) (old_item new_item : Item) (db : Db)
    → Ensures
        (λ p.
          (t : ℕ) × (t1 : ℕ) × (t2 : ℕ) × (p.1 ≡ record db {
            requests = replace request_key (record r { updated_at = t }) db.requests;
            items =
                replace item_key
                  (record new_item { updated_at = t2 })
                  (replace item_key (record old_item { updated_at = t1 }) db.items);
          }))
        (save_swap env r old_item new_item db)
unfolding save_swap
save_swap-ok env r old_item new_item db = bind-Ensures _ _ λ p wrote.
    bind-Ensures _ _ λ q wrote_old. bind-Ensures _ _ λ u wrote_new.
      let (stamped, database, free) = update_request-ok env r db {row = p.0} {db' = p.1} wrote in
      let (old_stamped, old_database, old_unique) =
        update_item-ok env old_item p.1 {row = q.0} {db' = q.1} wrote_old in
      let (new_stamped, new_database, new_unique) =
        update_item-ok env new_item q.1 {row = u.0} {db' = u.1} wrote_new in
      returns (p.0.updated_at, q.0.updated_at, u.0.updated_at, ground arith)

log_swap-ok :
    (env : Env) (ticket : SupportRequest) (request_id old_id new_id actor_id : ℕ) (db : Db)
    → Ensures
        (λ p.
          (swapped_in : DeviceLog) × (swapped_in.item_id ≡ new_id)
          × (p.1 ≡ record db {
            device_logs =
                (db.device_logs
                  ++ log_row env (swapped_out_args ticket.id request_id old_id new_id actor_id) db
                    ∷ [])
                ++ swapped_in ∷ [];
          }))
        (log_swap env ticket request_id old_id new_id actor_id db)
unfolding log_swap log_row
log_swap-ok env ticket request_id old_id new_id actor_id db =
    then-Ensures _ _ (append-Logged env _ db) λ p first.
      then-Ensures _ _ (append-Logged env _ p.1) λ q second. returns (
        log_row env (swapped_in_args ticket.id request_id old_id new_id actor_id) p.1,
        refl,
        ground (arith, first, second),
      )

module _ (env : Env) (ticket : SupportRequest) (old_item : Item) (swapped_to : ℕ)
    (next_status : DeviceStatus) (actor_id : ℕ) (db : Db) where
  pub record Swapped (p : Unit {0} × Db) : Type 0 where
    pub distinct : (swapped_to == old_item.id) ≡ false
    pub request_id : ℕ
    pub tied : ticket.request_id ≡ some request_id
    pub new_item : Item
    pub new_found : get_item swapped_to db ≡ some new_item
    pub same_category : new_item.category_id ≡ old_item.category_id
    pub available : new_item.status ≡ DeviceStatus.available
    pub request : Request
    pub request_found : get_request request_id db ≡ some request
    pub request_time : ℕ
    pub old_time : ℕ
    pub new_time : ℕ
    pub requests :
        p.1.requests
        ≡ replace request_key
            (record request { assigned_item_id = some new_item.id; updated_at = request_time })
            db.requests
    pub items :
        p.1.items
        ≡ replace item_key
            (record new_item {
              status = DeviceStatus.assigned;
              current_owner_id = some request.requester_id;
              updated_at = new_time;
            })
            (replace item_key
              (record old_item {
                status = next_status;
                current_owner_id = none;
                updated_at = old_time;
              })
              db.items)
    pub users : p.1.users ≡ db.users
    pub support_requests : p.1.support_requests ≡ db.support_requests
    pub swapped_in : DeviceLog
    pub swapped_in_item : swapped_in.item_id ≡ new_item.id
    pub logs :
        p.1.device_logs
        ≡ (db.device_logs
            ++ log_row env
                (swapped_out_args ticket.id request.id old_item.id new_item.id actor_id)
                db
              ∷ [])
          ++ swapped_in ∷ []

  pub swap-Swapped : Ensures Swapped (swap env ticket old_item swapped_to next_status actor_id db)
  unfolding swap log_row
  swap-Swapped = raise_if-Ensures _ _ _ λ distinct. or_raise-Ensures _ _ _ λ request_id tied.
      or_raise-Ensures _ _ _ λ new_item new_found. raise_if-Ensures _ _ _ λ category.
        raise_if-Ensures _ _ _ λ available. or_raise-Ensures _ _ _ λ request found.
          then-Ensures _ _ (save_swap-ok env _ _ _ db) λ p saved.
            map-Ensures _ (log_swap-ok env ticket request.id old_item.id new_item.id actor_id p.1)
              λ u logged. record {
                distinct = distinct;
                request_id = request_id;
                tied = tied;
                new_item = new_item;
                new_found = new_found;
                same_category = ground arith;
                available = ground arith;
                request = request;
                request_found = found;
                request_time = saved.0;
                old_time = saved.1;
                new_time = saved.2;
                requests = ground (arith, logged.2, saved.3);
                items = ground (arith, logged.2, saved.3);
                users = ground (arith, logged.2, saved.3);
                support_requests = ground (arith, logged.2, saved.3);
                swapped_in = logged.0;
                swapped_in_item = logged.1;
                logs = ground (arith, logged.2, saved.3);
              }
