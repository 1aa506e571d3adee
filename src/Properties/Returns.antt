-- ===== src/Properties/Returns.antt =====
-- Completed returns: `complete_return` of app/services/shipping_service.py.
use asset_pilot_fastapi.Outcomes.AutoClose.{closes}
use asset_pilot_fastapi.Services.DeviceLog.{log_row}
use mathlib.Core.List.{append_assoc}
use mathlib.Core.Path.{subst}
use asset_pilot_fastapi.Table.Laws.{find-replace_found, any_key-filter, find-key}
use asset_pilot_fastapi.Outcomes.Returns.{complete_return-Returned}
use asset_pilot_fastapi.Result.Ensures.{of_Ensures}
use asset_pilot_fastapi.Result.{ok}
use asset_pilot_fastapi.Invariant.{IsValid}
use asset_pilot_fastapi.Services.Shipping.{is_return_eligible, complete_return}
use asset_pilot_fastapi.Models.{DeviceLog, Item, SupportRequest, Request}
use asset_pilot_fastapi.Enums.{
  status_value, DeviceLogEvent, SupportStatus, RequestStatus, DeviceStatus,
}
use asset_pilot_fastapi.Database.{support_key, request_key, item_key, Db, Env}
use asset_pilot_fastapi.Repositories.Support.{is_open_for, list_open_for_item}
use asset_pilot_fastapi.Repositories.{get_item, get_request, get_support_request}
use asset_pilot_fastapi.Prelude.{
  ◌∙◌, not, length, filter, any-sort_by, ◌==◌, ◌==◌, any, refl, false, ◌⊎◌, ◌⊎◌, [], inr, inl,
  Bool-cases, arith, ◌∷◌, ◌∷◌, ◌++◌, ◌++◌, none, true, List, some, ◌≡◌, ◌≡◌, ℕ,
}

-- If `complete_return` returns, the request it was called for is stored as completed by the actor, with the next status of the device; its device was assigned or on its way back and is stored with this next status and no owner; and the log has grown by an entry for the receipt of the device, with both statuses, one for the completed assignment, and one for the closing of each open ticket of the device, all about the device.
pub complete_return-stored :
    (env : Env) (request_id : ℕ) (next_status : DeviceStatus) (actor_id : ℕ) (db db' : Db)
    (result : Request)
    → complete_return env request_id next_status actor_id db ≡ ok (result, db')
    → (item_id : ℕ) × (item : Item) × (new_item : Item) × (received : DeviceLog)
      × (completed : DeviceLog) × (closings : List DeviceLog) × (get_request request_id db'
          ≡ some result)
      × (result.status ≡ RequestStatus.completed)
      × (result.completed_by ≡ some actor_id)
      × (result.completed_next_status ≡ some next_status)
      × (result.assigned_item_id ≡ some item_id)
      × (get_item item_id db ≡ some item)
      × (is_return_eligible item.status ≡ true)
      × (get_item item_id db' ≡ some new_item)
      × (new_item.status ≡ next_status)
      × (new_item.current_owner_id ≡ none)
      × (db'.device_logs ≡ db.device_logs ++ received ∷ completed ∷ closings)
      × (received.item_id ≡ item_id)
      × (received.event_type ≡ DeviceLogEvent.return_received)
      × (received.from_value ≡ some (status_value item.status))
      × (received.to_value ≡ some (status_value next_status))
      × (completed.item_id ≡ item_id)
      × (completed.event_type ≡ DeviceLogEvent.assignment_completed)
      × (length closings ≡ length (list_open_for_item item_id db))
      × (any (λ (l : DeviceLog). not (closes item_id l)) closings ≡ false)
unfolding get_request get_item log_row
complete_return-stored env request_id next_status actor_id db db' result h =
    let o =
      of_Ensures (complete_return-Returned env request_id next_status actor_id db) (result, db')
        h in
    let (item_id, has_item, item_found) = o.item_found in
    let key = find-key item_key item_id db.items {x = o.item} item_found in
    let new_item = record o.item {
      status = next_status;
      current_owner_id = none;
      updated_at = o.item_time;
    } in
    (
      item_id,
      o.item,
      new_item,
      o.received,
      o.completed,
      o.closed_tickets.new_logs,
      ground (
        arith,
        o.requests,
        o.result,
        find-replace_found request_key result request_id db.requests o.request_found,
      ),
      ground (arith, o.result),
      ground (arith, o.result),
      ground (arith, o.result),
      ground (arith, o.result, has_item),
      item_found,
      o.eligible,
      rw o.items (find-replace_found item_key new_item item_id db.items item_found refl),
      refl,
      refl,
      ground (
        arith,
        o.closed_tickets.logs,
        append_assoc db.device_logs (o.received ∷ []) (o.completed ∷ []),
        append_assoc db.device_logs (o.received ∷ o.completed ∷ []) o.closed_tickets.new_logs,
      ),
      ground (arith, o.received_row, key),
      ground (arith, o.received_row),
      ground (arith, o.received_row),
      ground (arith, o.received_row),
      o.completed_item ∙ key,
      o.completed_event,
      subst (λ (k : ℕ). length o.closed_tickets.new_logs ≡ length (list_open_for_item k db)) key
          o.closed_tickets.one_each,
      subst (λ (k : ℕ). any (λ (l : DeviceLog). not (closes k l)) o.closed_tickets.new_logs ≡ false)
          key o.closed_tickets.of_item,
    )

-- In a valid database, if `complete_return` returns, a ticket stored before and after is now resolved and marked as closed automatically if it was an open ticket of the returned device, and is as before if not.
pub complete_return-closes :
    (env : Env) (request_id : ℕ) (next_status : DeviceStatus) (actor_id item_id ticket_id : ℕ)
    (db db' : Db) (result : Request) (before after : SupportRequest)
    → IsValid db
    → complete_return env request_id next_status actor_id db ≡ ok (result, db')
    → result.assigned_item_id ≡ some item_id
    → get_support_request ticket_id db ≡ some before
    → get_support_request ticket_id db' ≡ some after
    → ((is_open_for item_id before ≡ true)
        × (after.status ≡ SupportStatus.resolved)
        × (after.auto_closed ≡ true))
      ⊎ ((is_open_for item_id before ≡ false) × (after ≡ before))
unfolding get_support_request list_open_for_item get_item
complete_return-closes env request_id next_status actor_id item_id ticket_id db db' result before
      after valid h has_item was is_now =
    let o =
      of_Ensures (complete_return-Returned env request_id next_status actor_id db) (result, db')
        h in
    let (k, holds_item, item_found) = o.item_found in
    let key = find-key item_key k db.items {x = o.item} item_found in
    let same_key : o.item.id ≡ item_id = ground (arith, o.result, holds_item, has_item, key) in
    let listed : any (λ (t : SupportRequest). t.id == ticket_id) (list_open_for_item o.item.id db)
        ≡ is_open_for item_id before =
      ground (
        arith,
        same_key,
        any-sort_by (λ (t : SupportRequest). t.id == ticket_id) (λ (t : SupportRequest). t.filed_at)
            (filter (is_open_for o.item.id) db.support_requests),
        any_key-filter support_key (is_open_for o.item.id) ticket_id db.support_requests
            {x = before} valid.support_keys was,
      ) in
    elim (Bool-cases (is_open_for item_id before)) [
      | inl e ↦
          let (done, marked) =
            o.closed_tickets.closed ticket_id after (ground (arith, listed)) is_now in
          inl (e, done, marked)
      | inr e ↦ inr (e, ground (arith, o.closed_tickets.others ticket_id (ground (arith, listed))))
    ]
