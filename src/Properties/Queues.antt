-- ===== src/Properties/Queues.antt =====
-- The queues of app/services/shipping_service.py after what is shipped and what comes back.
use asset_pilot_fastapi.Properties.Queries.{is_id-true}
use asset_pilot_fastapi.Table.Laws.{replace-HasUniqueKeys, find-replace_found}
use asset_pilot_fastapi.Outcomes.Shipping.{ship-Shipped}
use asset_pilot_fastapi.Outcomes.Returns.{complete_return-Returned}
use asset_pilot_fastapi.Result.Ensures.{of_Ensures}
use asset_pilot_fastapi.Repositories.Queries.{user_name, item_name, order_by, outer, join}
use asset_pilot_fastapi.Table.{find}
use asset_pilot_fastapi.Services.Lookup.{device_is}
use asset_pilot_fastapi.Repositories.Queries.Laws.{
  any-filter, any-order_by, any-join, any-none, any-map, any_only_key, passes,
}
use asset_pilot_fastapi.Api.{is_allowed_next}
use asset_pilot_fastapi.Repositories.{get_request, get_item}
use asset_pilot_fastapi.Database.{request_key, item_key, Env, Db}
use asset_pilot_fastapi.Views.Requests.{result_from, RequestResult}
use asset_pilot_fastapi.Enums.{DeviceStatus, DeviceStatus-discrete}
use asset_pilot_fastapi.Models.{Item, Request}
use asset_pilot_fastapi.Repositories.Queries.RequestQueries.{
  ShippingQueueRow, oldest_first, is_outbound, list_return_shipping_queue,
  list_outbound_shipping_queue, shipping_row, is_returning,
}
use asset_pilot_fastapi.Views.Queues.{
  ShippingQueueResult, queue_result_from, list_outbound, list_returns,
}
use asset_pilot_fastapi.Prelude.{
  refl, ==_iff, Bool-cases, sym, ◌∙◌, filter, inr, ap, ◌∙◌, inl, ◌==◌, ◌==◌, String, is_id, arith,
  map, Option-cases, ◌&&◌, ◌≡◌, ℕ, ◌≡◌, ◌&&◌, any, Bool, true, false, none, some,
}
use asset_pilot_fastapi.Result.{ok}
use asset_pilot_fastapi.Invariant.{IsValid}
use asset_pilot_fastapi.Services.Shipping.{ship, complete_return}

-- Whether a request is selected for a queue, and its entry there passes a test.
abbrev in_queue : (Request → Bool) → (RequestResult → Bool) → Db → Request → Bool
in_queue selected p db r =
    selected r && passes (λ row. p (queue_result_from row).base) (shipping_row db r)

in_queue-true :
    (selected : Request → Bool) (p : RequestResult → Bool) (db : Db) (r : Request)
    → in_queue selected p db r ≡ true
    → (selected r ≡ true) × (p (result_from r) ≡ true)
unfolding shipping_row queue_result_from
in_queue-true selected p db r h = elim (Option-cases (outer (item_name db) r.assigned_item_id)) [
  | inl e ↦ ground (arith, e, h)
  | inr (i, e) ↦ elim (Option-cases (user_name db r.requester_id)) [
    | inl e' ↦ ground (arith, e, e', h)
    | inr (n, e') ↦ (ground (arith, e, e', h), ground (arith, e, e', h))
  ]
]

module _ (p : RequestResult → Bool) (db : Db) where
  queue-any :
      (selected : Request → Bool)
      → any
          (λ (e : ShippingQueueResult). p e.base)
          (map queue_result_from
            (join (shipping_row db) (order_by oldest_first (filter selected db.requests))))
        ≡ any (in_queue selected p db) db.requests
  queue-any selected =
      let shown = λ (row : ShippingQueueRow). p (queue_result_from row).base in
      let rows = filter selected db.requests in
      any-map (λ (e : ShippingQueueResult). p e.base) queue_result_from _
      ∙ any-join shown (shipping_row db) (order_by oldest_first rows)
      ∙ any-order_by (λ r. passes shown (shipping_row db r)) oldest_first rows
      ∙ any-filter (λ r. passes shown (shipping_row db r)) selected db.requests

-- If `ship` returns in a valid database, the outbound queue of the database that it leaves does not show the request.
pub ship-dequeued :
    (env : Env) (request_id : ℕ) (url : String) (actor_id : ℕ) (db db' : Db) (shipped : Request)
    → IsValid db
    → ship env request_id url actor_id db ≡ ok (shipped, db')
    → any (λ (e : ShippingQueueResult). e.base.id == request_id) (list_outbound db') ≡ false
unfolding list_outbound list_outbound_shipping_queue get_request is_outbound result_from
ship-dequeued env request_id url actor_id db db' shipped valid h =
    let o = of_Ensures (ship-Shipped env request_id url actor_id db) (shipped, db') h in
    let test = λ (e : RequestResult). e.id == request_id in
    let gone = in_queue-true is_outbound test db' in
    queue-any test db' is_outbound
    ∙ ap (λ (d : Db). any (in_queue is_outbound test db') d.requests) o.database
    ∙ any_only_key request_key (in_queue is_outbound test db') request_id _ {r = shipped}
        (replace-HasUniqueKeys request_key shipped db.requests valid.request_keys)
        (λ r passed. (==_iff r.id request_id).0 (gone r passed).1)
        (find-replace_found request_key shipped request_id db.requests {old = o.request}
          o.request_found (ground (arith, o.result)))
        (elim (Bool-cases (in_queue is_outbound test db' shipped)) [
          | inl e ↦ ground (arith, o.result, (gone shipped e).0)
          | inr e ↦ e
        ])

allowed_next-free :
    (s : DeviceStatus)
    → is_allowed_next s ≡ true
    → device_is s DeviceStatus.return_shipping_pending ≡ false
unfolding DeviceStatus-discrete
allowed_next-free DeviceStatus.return_shipping_pending h = cc
allowed_next-free _ h = ground arith

returning_status :
    (db : Db) (r : Request) (k : ℕ) (i : Item)
    → r.assigned_item_id ≡ some k
    → find item_key k db.items ≡ some i
    → is_returning db r ≡ true
    → device_is i.status DeviceStatus.return_shipping_pending ≡ true
unfolding is_returning
returning_status db r k i its found waits = ground (arith, its, found, waits)

-- A device that has come back waits for nothing: if `complete_return` returns with a status that the endpoint admits, the queue of returns shows no request of the device any more, neither the completed request nor an older one.
pub complete_return-dequeued :
    (env : Env) (request_id item_id : ℕ) (next_status : DeviceStatus) (actor_id : ℕ) (db db' : Db)
    (completed : Request)
    → is_allowed_next next_status ≡ true
    → complete_return env request_id next_status actor_id db ≡ ok (completed, db')
    → completed.assigned_item_id ≡ some item_id
    → any (λ (e : ShippingQueueResult). is_id e.base.assigned_item_id item_id) (list_returns db')
      ≡ false
unfolding list_returns list_return_shipping_queue get_item is_returning result_from
complete_return-dequeued env request_id item_id next_status actor_id db db' completed allowed h
      has_item =
    let o =
      of_Ensures (complete_return-Returned env request_id next_status actor_id db) (completed, db')
        h in
    let (item_id', booked, item_found) = o.item_found in
    let same_id : item_id' ≡ item_id = ground (arith, o.result, booked, has_item) in
    let back = record o.item {
      status = next_status;
      current_owner_id = none;
      updated_at = o.item_time;
    } in
    let back_found : find item_key item_id db'.items ≡ some back =
      ap (find item_key item_id) o.items
      ∙ find-replace_found item_key back item_id db.items {old = o.item}
          (ap (λ (j : ℕ). find item_key j db.items) (sym same_id) ∙ item_found) refl in
    let test = λ (e : RequestResult). is_id e.assigned_item_id item_id in
    queue-any test db' (is_returning db')
    ∙ any-none (in_queue (is_returning db') test db') db'.requests λ r.
      elim (Bool-cases (in_queue (is_returning db') test db' r)) [
        | inl e ↦
            let (waits, of_item) = in_queue-true (is_returning db') test db' r e in
            let its = is_id-true r.assigned_item_id item_id of_item in
            (let waiting = returning_status db' r item_id back its back_found waits in
              let free = allowed_next-free next_status allowed in cc)
        | inr e ↦ e
      ]
