-- ===== src/Properties/Shipping.antt =====
-- Shipping and returns: app/services/shipping_service.py.
use mathlib.Core.List.{append_assoc}
use asset_pilot_fastapi.Enums.{DeviceStatus}
use asset_pilot_fastapi.Table.Laws.{find-replace_found, find-replace, find-key}
use asset_pilot_fastapi.Outcomes.Shipping.{
  delivered_args, shipped_args, confirm_delivery-Delivered, ship-Shipped,
}
use asset_pilot_fastapi.Result.Ensures.{of_Ensures}
use asset_pilot_fastapi.Result.{ok}
use asset_pilot_fastapi.Services.Shipping.{confirm_delivery, ship}
use asset_pilot_fastapi.Models.{DeviceLog, Item, Request}
use asset_pilot_fastapi.Database.{item_key, request_key, Db, Env}
use asset_pilot_fastapi.Services.DeviceLog.{log_row}
use asset_pilot_fastapi.Repositories.{get_item, get_request}
use asset_pilot_fastapi.Prelude.{refl, arith, [], ◌∷◌, ◌∷◌, ◌++◌, ◌++◌, some, ◌≡◌, ◌≡◌, String, ℕ}

-- A shipment that is confirmed: if `ship` and then `confirm_delivery` return, the device of the request was assigned and is stored as before but for `updated_at`; the request is stored as it was before, its status, device and dates included, but for the tracking URL, both times and `updated_at`; and the log has two entries more, both about the device.
pub ship_deliver :
    (env env' : Env) (request_id : ℕ) (url : String) (actor_id actor_id' : ℕ) (db db1 db2 : Db)
    (shipped delivered : Request)
    → ship env request_id url actor_id db ≡ ok (shipped, db1)
    → confirm_delivery env' request_id actor_id' db1 ≡ ok (delivered, db2)
    → (item_id : ℕ) × (item : Item) × (old : Request) × (time : ℕ) × (first : DeviceLog)
      × (second : DeviceLog) × (get_request request_id db ≡ some old)
      × (old.assigned_item_id ≡ some item_id)
      × (get_item item_id db ≡ some item)
      × (item.status ≡ DeviceStatus.assigned)
      × (get_item item_id db2 ≡ some (record item { updated_at = time }))
      × (get_request request_id db2 ≡ some delivered)
      × (delivered ≡ record old {
        ship_tracking_url = some url;
        ship_initiated_at = some (env.clock 0);
        ship_completed_at = some (env'.clock 0);
        updated_at = delivered.updated_at;
      })
      × (db2.device_logs ≡ db.device_logs ++ first ∷ second ∷ [])
      × (first.item_id ≡ item_id)
      × (second.item_id ≡ item_id)
      × (first.to_value ≡ second.from_value)
unfolding get_request get_item log_row
ship_deliver env env' request_id url actor_id actor_id' db db1 db2 shipped delivered h h' =
    let o = of_Ensures (ship-Shipped env request_id url actor_id db) (shipped, db1) h in
    let o' =
      of_Ensures (confirm_delivery-Delivered env' request_id actor_id' db1) (delivered, db2) h' in
    let (item_id, has_item, item_found) = o.item_found in
    let (item_id', has_item', item_found') = o'.item_found in
    let same_request : o'.request ≡ shipped = ground (
      arith,
      o'.request_found,
      o.request_found,
      o.database,
      o.result,
      find-key request_key request_id db.requests {x = o.request} o.request_found,
      find-replace request_key shipped request_id db.requests,
    ) in
    let same_item_id : item_id' ≡ item_id =
      ground (arith, same_request, o.result, has_item, has_item') in
    let moved = record o.item {
      status = DeviceStatus.shipping_pending;
      updated_at = o.item_time;
    } in
    let same_item : o'.item ≡ moved = ground (
      arith,
      same_item_id,
      item_found,
      item_found',
      o.database,
      find-replace_found item_key moved item_id db.items item_found refl,
    ) in
    (
      item_id,
      o.item,
      o.request,
      o'.item_time,
      log_row env (shipped_args o.item.id o.request.id url actor_id) db,
      log_row env' (delivered_args o'.item.id o'.request.id actor_id') db1,
      o.request_found,
      has_item,
      item_found,
      o.assigned,
      ground (
        arith,
        o'.database,
        same_item,
        same_item_id,
        o.assigned,
        find-replace_found item_key
            (record o'.item { status = DeviceStatus.assigned; updated_at = o'.item_time }) item_id'
            db1.items item_found' refl,
      ),
      ground (
        arith,
        o'.database,
        o'.result,
        find-replace_found request_key delivered request_id db1.requests o'.request_found,
      ),
      ground (arith, o'.result, same_request, o.result),
      ground (
        arith,
        o'.database,
        o.database,
        append_assoc db.device_logs
            (log_row env (shipped_args o.item.id o.request.id url actor_id) db ∷ [])
            (log_row env' (delivered_args o'.item.id o'.request.id actor_id') db1 ∷ []),
      ),
      find-key item_key item_id db.items item_found,
      ground (arith, same_item, find-key item_key item_id db.items {x = o.item} item_found),
      refl,
    )
