-- ===== src/Outcomes/Shipping.antt =====
-- The outcomes of shipping and of a delivery.
use asset_pilot_fastapi.Table.{replace}
use asset_pilot_fastapi.Enums.{status_value, ActorRole, DeviceLogEvent, DeviceStatus}
use asset_pilot_fastapi.Outcomes.Writes.{append-Logged, save_both-SavedBoth}
use asset_pilot_fastapi.Repositories.{get_item, get_request}
use asset_pilot_fastapi.Result.Ensures.{
  returns, raise_if-Ensures, all_Ensures, then-Ensures, or_raise-Ensures, Ensures,
}
use asset_pilot_fastapi.Result.{or_raise}
use asset_pilot_fastapi.Services.DeviceLog.{log_row, log_args, LogArgs}
use asset_pilot_fastapi.Models.{text, Item, Request}
use asset_pilot_fastapi.Services.Shipping.{confirm_delivery, ship, get_assigned_item_or_404}
use asset_pilot_fastapi.Database.{item_key, request_key, Db, Env}
use asset_pilot_fastapi.Prelude.{[], ◌++◌, ◌∷◌, ◌∷◌, ◌++◌, true, arith, some, ◌≡◌, String, ℕ}

-- The device of a request.
abbrev pub AssignedItem : Request → Db → Item → Type 0
AssignedItem request db item =
    (k : ℕ) × (request.assigned_item_id ≡ some k) × (get_item k db ≡ some item)

pub get_assigned_item_or_404-AssignedItem :
    (request : Request) (db : Db)
    → Ensures (AssignedItem request db) (get_assigned_item_or_404 request db)
unfolding get_assigned_item_or_404 or_raise
get_assigned_item_or_404-AssignedItem request db =
    or_raise-Ensures _ _ _ λ item_id booked. all_Ensures _ λ item e. (item_id, booked, ground arith)

-- The log entry of a shipment.
abbrev pub shipped_args : ℕ → ℕ → String → ℕ → LogArgs
shipped_args item_id request_id url actor_id =
    record (log_args item_id DeviceLogEvent.ship_outbound_initiated (some actor_id)
      ActorRole.it_admin) {
        request_id = some request_id;
        from_value = some (status_value DeviceStatus.assigned);
        to_value = some (status_value DeviceStatus.shipping_pending);
        metadata = some (("ship_tracking_url", text url) ∷ []);
      }

-- The log entry of a delivery.
abbrev pub delivered_args : ℕ → ℕ → ℕ → LogArgs
delivered_args item_id request_id actor_id =
    record (log_args item_id DeviceLogEvent.ship_outbound_completed (some actor_id)
      ActorRole.it_admin) {
        request_id = some request_id;
        from_value = some (status_value DeviceStatus.shipping_pending);
        to_value = some (status_value DeviceStatus.assigned);
      }

module _ (env : Env) (request_id : ℕ) (url : String) (actor_id : ℕ) (db : Db) where
  pub record Shipped (p : Request × Db) : Type 0 where
    pub request : Request
    pub item : Item
    pub request_found : get_request request_id db ≡ some request
    pub wfh : request.is_wfh ≡ true
    pub item_found : AssignedItem request db item
    pub assigned : item.status ≡ DeviceStatus.assigned
    pub result : p.0 ≡ record request {
      ship_tracking_url = some url;
      ship_initiated_at = some (env.clock 0);
      updated_at = p.0.updated_at;
    }
    pub item_time : ℕ
    pub database : p.1 ≡ record db {
      requests = replace request_key p.0 db.requests;
      items =
          replace item_key
            (record item { status = DeviceStatus.shipping_pending; updated_at = item_time })
            db.items;
      device_logs =
          db.device_logs ++ log_row env (shipped_args item.id request.id url actor_id) db ∷ [];
    }

  pub ship-Shipped : Ensures Shipped (ship env request_id url actor_id db)
  unfolding ship log_row
  ship-Shipped = or_raise-Ensures _ _ _ λ request found. raise_if-Ensures _ _ _ λ wfh.
      then-Ensures _ _ (get_assigned_item_or_404-AssignedItem request db) λ item item_found.
        raise_if-Ensures _ _ _ λ is_assigned.
          then-Ensures _ _ (save_both-SavedBoth env _ _ db) λ p saved.
            then-Ensures _ _ (append-Logged env _ p.1) λ q logged. returns (record {
              request = request;
              item = item;
              request_found = found;
              wfh = ground arith;
              item_found = item_found;
              assigned = ground arith;
              result = saved.0;
              item_time = saved.1;
              database = ground (arith, logged, saved.2);
            })

module _ (env : Env) (request_id actor_id : ℕ) (db : Db) where
  pub record Delivered (p : Request × Db) : Type 0 where
    pub request : Request
    pub item : Item
    pub request_found : get_request request_id db ≡ some request
    pub item_found : AssignedItem request db item
    pub shipped : item.status ≡ DeviceStatus.shipping_pending
    pub result :
        p.0 ≡ record request { ship_completed_at = some (env.clock 0); updated_at = p.0.updated_at }
    pub item_time : ℕ
    pub database : p.1 ≡ record db {
      requests = replace request_key p.0 db.requests;
      items =
          replace item_key
            (record item { status = DeviceStatus.assigned; updated_at = item_time })
            db.items;
      device_logs =
          db.device_logs ++ log_row env (delivered_args item.id request.id actor_id) db ∷ [];
    }

  pub confirm_delivery-Delivered : Ensures Delivered (confirm_delivery env request_id actor_id db)
  unfolding confirm_delivery log_row
  confirm_delivery-Delivered = or_raise-Ensures _ _ _ λ request found.
      then-Ensures _ _ (get_assigned_item_or_404-AssignedItem request db) λ item item_found.
        raise_if-Ensures _ _ _ λ pending.
          then-Ensures _ _ (save_both-SavedBoth env _ _ db) λ p saved.
            then-Ensures _ _ (append-Logged env _ p.1) λ q logged. returns (record {
              request = request;
              item = item;
              request_found = found;
              item_found = item_found;
              shipped = ground arith;
              result = saved.0;
              item_time = saved.1;
              database = ground (arith, logged, saved.2);
            })
