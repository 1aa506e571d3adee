-- ===== src/Examples/Shipping.antt =====
-- The theorems on shipping and returns, applied.
use asset_pilot_fastapi.Outcomes.AutoClose.{closes}
use asset_pilot_fastapi.Examples.Valid.{holding-IsValid}
use asset_pilot_fastapi.Properties.Shipping.{ship_deliver}
use asset_pilot_fastapi.Properties.Returns.{complete_return-closes, complete_return-stored}
use asset_pilot_fastapi.Table.{replace, find}
use asset_pilot_fastapi.Services.Lookup.{get_item_or_404, get_request_or_404}
use asset_pilot_fastapi.Result.{◌>>=◌, or_raise, raise_if, on_integrity_error}
use asset_pilot_fastapi.Services.DeviceLog.{log_row, append}
use asset_pilot_fastapi.Enums.{
  status_value, DeviceLogEvent, SupportStatus, RequestStatus, DeviceStatus-discrete,
  RequestStatus-discrete, DeviceStatus,
}
use asset_pilot_fastapi.Repositories.Support.{is_open_for, list_open_for_item}
use asset_pilot_fastapi.Examples.Data.{outside, holding, request, value, ticket}
use asset_pilot_fastapi.Repositories.{
  get_extension_request, get_user, get_item, get_request, insert_request, insert_log, update_user,
  update_extension_request, update_support_request, update_item, update_request,
  get_support_request,
}
use asset_pilot_fastapi.Database.{
  user_collides, item_collides, collides, log_refers, extension_refers, support_refers, item_refers,
  request_refers, Db,
}
use asset_pilot_fastapi.Models.{DeviceLog, Item, Request, SupportRequest}
use asset_pilot_fastapi.Properties.Returns.{complete_return-closes}
use asset_pilot_fastapi.Prelude.{
  not, any, length, refl, false, [], ◌++◌, ◌++◌, true, ◌≡◌, ◌≡◌, List, ℕ, ◌∷◌, ◌⊎◌, some, none,
}
use asset_pilot_fastapi.Services.Shipping.{
  auto_close_ticket, auto_close_tickets, auto_close_open_support, get_assigned_item_or_404,
  log_return, confirm_delivery, save_both, complete_return, ship, is_return_eligible,
}

abbrev shipped : Request × Db
shipped = value (request, holding) (ship outside 20 "url" 1 holding)

abbrev delivered : Request × Db
delivered = value (request, holding) (confirm_delivery outside 20 1 shipped.1)

ship_deliver_example :
    (item_id : ℕ) × (item : Item) × (old : Request) × (time : ℕ) × (first : DeviceLog)
    × (second : DeviceLog) × (get_request 20 holding ≡ some old)
    × (old.assigned_item_id ≡ some item_id)
    × (get_item item_id holding ≡ some item)
    × (item.status ≡ DeviceStatus.assigned)
    × (get_item item_id delivered.1 ≡ some (record item { updated_at = time }))
    × (get_request 20 delivered.1 ≡ some delivered.0)
    × (delivered.0 ≡ record old {
      ship_tracking_url = some "url";
      ship_initiated_at = some (outside.clock 0);
      ship_completed_at = some (outside.clock 0);
      updated_at = delivered.0.updated_at;
    })
    × (delivered.1.device_logs ≡ holding.device_logs ++ first ∷ second ∷ [])
    × (first.item_id ≡ item_id)
    × (second.item_id ≡ item_id)
    × (first.to_value ≡ second.from_value)
unfolding ship confirm_delivery save_both get_assigned_item_or_404 update_request update_item
    update_support_request update_extension_request update_user append insert_log insert_request
    on_integrity_error raise_if or_raise ◌>>=◌ get_request_or_404 get_item_or_404 get_request
    get_item get_user get_support_request get_extension_request find replace request_refers
    item_refers support_refers extension_refers log_refers collides item_collides user_collides
    log_row RequestStatus-discrete DeviceStatus-discrete
ship_deliver_example =
    ship_deliver outside outside 20 "url" 1 1 holding shipped.1 delivered.1 shipped.0 delivered.0
      refl refl

abbrev returned : Request × Db
returned = value (request, holding) (complete_return outside 20 DeviceStatus.available 1 holding)

complete_return-stored_example :
    (item_id : ℕ) × (item : Item) × (new_item : Item) × (received : DeviceLog)
    × (completed : DeviceLog) × (closings : List DeviceLog) × (get_request 20 returned.1
        ≡ some returned.0)
    × (returned.0.status ≡ RequestStatus.completed)
    × (returned.0.completed_by ≡ some 1)
    × (returned.0.completed_next_status ≡ some DeviceStatus.available)
    × (returned.0.assigned_item_id ≡ some item_id)
    × (get_item item_id holding ≡ some item)
    × (is_return_eligible item.status ≡ true)
    × (get_item item_id returned.1 ≡ some new_item)
    × (new_item.status ≡ DeviceStatus.available)
    × (new_item.current_owner_id ≡ none)
    × (returned.1.device_logs ≡ holding.device_logs ++ received ∷ completed ∷ closings)
    × (received.item_id ≡ item_id)
    × (received.event_type ≡ DeviceLogEvent.return_received)
    × (received.from_value ≡ some (status_value item.status))
    × (received.to_value ≡ some (status_value DeviceStatus.available))
    × (completed.item_id ≡ item_id)
    × (completed.event_type ≡ DeviceLogEvent.assignment_completed)
    × (length closings ≡ length (list_open_for_item item_id holding))
    × (any (λ (l : DeviceLog). not (closes item_id l)) closings ≡ false)
unfolding complete_return save_both log_return auto_close_open_support auto_close_tickets
    auto_close_ticket list_open_for_item get_assigned_item_or_404 update_request update_item
    update_support_request update_extension_request update_user append insert_log insert_request
    on_integrity_error raise_if or_raise ◌>>=◌ get_request_or_404 get_item_or_404 get_request
    get_item get_user get_support_request get_extension_request find replace request_refers
    item_refers support_refers extension_refers log_refers collides item_collides user_collides
    log_row RequestStatus-discrete DeviceStatus-discrete
complete_return-stored_example =
    complete_return-stored outside 20 DeviceStatus.available 1 holding returned.1 returned.0 refl

abbrev closed_ticket : SupportRequest
closed_ticket = elim (get_support_request 50 returned.1) [ none ↦ ticket | some t ↦ t ]

complete_return-closes_example :
    ((is_open_for 10 ticket ≡ true)
      × (closed_ticket.status ≡ SupportStatus.resolved)
      × (closed_ticket.auto_closed ≡ true))
    ⊎ ((is_open_for 10 ticket ≡ false) × (closed_ticket ≡ ticket))
unfolding complete_return save_both log_return auto_close_open_support auto_close_tickets
    auto_close_ticket list_open_for_item get_assigned_item_or_404 update_request update_item
    update_support_request update_extension_request update_user append insert_log insert_request
    on_integrity_error raise_if or_raise ◌>>=◌ get_request_or_404 get_item_or_404 get_request
    get_item get_user get_support_request get_extension_request find replace request_refers
    item_refers support_refers extension_refers log_refers collides item_collides user_collides
    log_row RequestStatus-discrete DeviceStatus-discrete
complete_return-closes_example =
    complete_return-closes outside 20 DeviceStatus.available 1 10 50 holding returned.1 returned.0
      ticket closed_ticket holding-IsValid refl refl refl refl
