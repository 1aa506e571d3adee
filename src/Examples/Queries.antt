-- ===== src/Examples/Queries.antt =====
-- The theorems on listings, applied.
use asset_pilot_fastapi.Properties.Suggestions.{suggested_devices-fit}
use asset_pilot_fastapi.Services.Assignment.{assign}
use asset_pilot_fastapi.Repositories.Requests.{has_overlapping_assigned_booking}
use asset_pilot_fastapi.Views.ItemResults.{item_result_from}
use asset_pilot_fastapi.Result.{ok, err}
use asset_pilot_fastapi.Examples.Valid.{rivalled-IsValid}
use asset_pilot_fastapi.Examples.Data.{rivalled, rival}
use asset_pilot_fastapi.Repositories.Queries.Each.{Each}
use asset_pilot_fastapi.Properties.Selection.{Passes}
use asset_pilot_fastapi.Properties.RequestList.{list_request_entries-shown, ShownBy, whole}
use asset_pilot_fastapi.Properties.Queues.{complete_return-dequeued, ship-dequeued}
use asset_pilot_fastapi.Properties.Listings.{deactivate-unlisted, timeline_grows}
use asset_pilot_fastapi.Views.Queues.{
  SuggestedDeviceResult, suggested_devices, list_returns, list_outbound, ShippingQueueResult,
}
use asset_pilot_fastapi.Table.{replace, find}
use asset_pilot_fastapi.Services.Lookup.{get_item_or_404, get_request_or_404}
use asset_pilot_fastapi.Repositories.Support.{list_open_for_item}
use asset_pilot_fastapi.Properties.Queries.{get_active_for_item-assigned}
use asset_pilot_fastapi.Repositories.Queries.PeopleQueries.{paged, log_entry_row, list_for_item}
use asset_pilot_fastapi.Repositories.{
  get_extension_request, get_support_request, get_user, get_item, insert_request, insert_log,
  update_user, update_extension_request, update_support_request, update_item, get_request,
  update_request,
}
use asset_pilot_fastapi.Enums.{
  DeviceStatus-discrete, RequestStatus-discrete, DeviceLogEvent-discrete, RequestStatus,
  DeviceStatus,
}
use asset_pilot_fastapi.Views.Requests.{RequestListEntry, list_request_entries}
use asset_pilot_fastapi.Views.Dashboard.{get_summary}
use asset_pilot_fastapi.Properties.Privacy.{hashes_hidden, rehash}
use asset_pilot_fastapi.Models.{Item, User, Request}
use asset_pilot_fastapi.Repositories.Queries.RequestQueries.{RequestFilter, get_active_for_item}
use asset_pilot_fastapi.Properties.Dashboard.{status_breakdown-total, with_status, total}
use asset_pilot_fastapi.Database.{
  Env, user_collides, item_collides, collides, log_refers, extension_refers, support_refers,
  item_refers, request_refers, Db,
}
use asset_pilot_fastapi.Pagination.{PaginationParams}
use asset_pilot_fastapi.Views.People.{
  UserOption, DeviceLogEntry, entry_from, list_employees, get_timeline, list_managers, list_users,
}
use asset_pilot_fastapi.Services.Users.{has_active_devices_or_requests, get_user_or_404, deactivate}
use asset_pilot_fastapi.Repositories.Queries.{category_name, Sql}
use asset_pilot_fastapi.Examples.Data.{
  outside, holding, request, value, waiting, employee, held_request, held_laptop, spare,
}
use asset_pilot_fastapi.Examples.Valid.{holding-IsValid}
use asset_pilot_fastapi.Prelude.{
  String, Bool, ℕ, List, refl, ◌==◌, is_id, ◌==◌, any, ◌∷◌, ◌≤◌, ◌+◌, ◌↔◌, ◌∷◌, ◌≤◌, ◌+◌, ◌↔◌, ◌≡◌,
  ◌≡◌, [], length, true, false, none, some,
}
use asset_pilot_fastapi.Result.{◌>>=◌, or_raise, raise_if, on_integrity_error}
use asset_pilot_fastapi.Services.Shipping.{
  auto_close_ticket, auto_close_tickets, auto_close_open_support, get_assigned_item_or_404,
  log_return, save_both, ship, complete_return,
}
use asset_pilot_fastapi.Services.DeviceLog.{event_milestone_map, log_row, append}
use asset_pilot_fastapi.Api.Reach.{Reach}
use asset_pilot_fastapi.Api.{serve, Call}

-- A substring search is not needed here: any pattern matches, and names are in the table's order.
abbrev sql : Sql
sql = record { ilike = λ pattern text. true; sorts_after = λ a b. false }

abbrev everything : RequestFilter
everything = record {
  status = some RequestStatus.assigned;
  category_id = some 5;
  priority = none;
  requested_from = some 30;
  requested_to = none;
  search = some "eve";
}

abbrev first_page : PaginationParams
first_page = record { page = 1; page_size = 10 }

get_active_for_item-assigned_example : (get_active_for_item 10 holding ≡ some held_request) ↔ (
    (get_request 20 holding ≡ some held_request)
    × (held_request.status ≡ RequestStatus.assigned)
    × (held_request.assigned_item_id ≡ some 10))
get_active_for_item-assigned_example =
    get_active_for_item-assigned holding 10 held_request holding-IsValid

list_request_entries-shown_example :
    (length (list_request_entries sql everything first_page holding).items ≤ 10)
    × Each
        (ShownBy sql everything holding)
        (list_request_entries sql everything first_page holding).items
    × ((any
            (λ (e : RequestListEntry). e.base.id == 20)
            (list_request_entries sql everything (whole holding) holding).items
          ≡ true)
        ↔ (Passes sql everything holding held_request
            × (name : String) × (category_name holding held_request.category_id ≡ some name)))
unfolding get_request find
list_request_entries-shown_example =
    list_request_entries-shown sql everything first_page holding held_request holding-IsValid refl

-- The employee without a device or an open request.
abbrev idle : Db
idle = record waiting { requests = [] }

abbrev left : User × Db
left = value (employee, idle) (deactivate outside 2 idle)

deactivate-unlisted_example :
    (any (λ (o : UserOption). o.id == 2) (list_managers sql left.1) ≡ false)
    × (any (λ (o : UserOption). o.id == 2) (list_employees sql left.1) ≡ false)
unfolding deactivate get_user_or_404 has_active_devices_or_requests update_request update_item
    update_support_request update_extension_request update_user append insert_log insert_request
    on_integrity_error raise_if or_raise ◌>>=◌ get_request_or_404 get_item_or_404 get_request
    get_item get_user get_support_request get_extension_request find replace request_refers
    item_refers support_refers extension_refers log_refers collides item_collides user_collides
    log_row RequestStatus-discrete DeviceStatus-discrete
deactivate-unlisted_example =
    deactivate-unlisted sql outside 2 idle left.1 left.0 (refl, (refl, tt)) refl

abbrev sent : Request × Db
sent = value (request, holding) (ship outside 20 "url" 1 holding)

ship-dequeued_example :
    any (λ (e : ShippingQueueResult). e.base.id == 20) (list_outbound sent.1) ≡ false
unfolding ship save_both get_assigned_item_or_404 update_request update_item update_support_request
    update_extension_request update_user append insert_log insert_request on_integrity_error
    raise_if or_raise ◌>>=◌ get_request_or_404 get_item_or_404 get_request get_item get_user
    get_support_request get_extension_request find replace request_refers item_refers support_refers
    extension_refers log_refers collides item_collides user_collides log_row RequestStatus-discrete
    DeviceStatus-discrete
ship-dequeued_example = ship-dequeued outside 20 "url" 1 holding sent.1 sent.0 holding-IsValid refl

abbrev arrived : Db
arrived = (serve outside (Call.confirm_delivery_call 20 1) sent.1).1

timeline_grows_example :
    any (λ (e : DeviceLogEntry). e.id == 1000) (get_timeline 10 false arrived) ≡ true
unfolding ship save_both get_assigned_item_or_404 get_timeline list_for_item log_entry_row paged
    entry_from DeviceLogEvent-discrete event_milestone_map update_request update_item
    update_support_request update_extension_request update_user append insert_log insert_request
    on_integrity_error raise_if or_raise ◌>>=◌ get_request_or_404 get_item_or_404 get_request
    get_item get_user get_support_request get_extension_request find replace request_refers
    item_refers support_refers extension_refers log_refers collides item_collides user_collides
    log_row RequestStatus-discrete DeviceStatus-discrete
timeline_grows_example =
    timeline_grows {start = sent.1} {db = arrived} 1000 10 false
      (Reach.step outside (Call.confirm_delivery_call 20 1) Reach.here) refl

-- The laptop on its way back.
abbrev returning : Db
returning = record holding {
  items = record held_laptop { status = DeviceStatus.return_shipping_pending } ∷ spare ∷ [];
}

abbrev back : Request × Db
back = value (request, returning) (complete_return outside 20 DeviceStatus.available 1 returning)

complete_return-dequeued_example :
    any (λ (e : ShippingQueueResult). is_id e.base.assigned_item_id 10) (list_returns back.1)
    ≡ false
unfolding complete_return save_both log_return auto_close_open_support auto_close_tickets
    auto_close_ticket list_open_for_item get_assigned_item_or_404 update_request update_item
    update_support_request update_extension_request update_user append insert_log insert_request
    on_integrity_error raise_if or_raise ◌>>=◌ get_request_or_404 get_item_or_404 get_request
    get_item get_user get_support_request get_extension_request find replace request_refers
    item_refers support_refers extension_refers log_refers collides item_collides user_collides
    log_row RequestStatus-discrete DeviceStatus-discrete
complete_return-dequeued_example =
    complete_return-dequeued outside 20 10 DeviceStatus.available 1 returning back.1 back.0 refl
      refl refl

status_breakdown-total_example :
    total (get_summary returning).status_breakdown
      + with_status DeviceStatus.returned_to_client returning.items
    ≡ 2
status_breakdown-total_example = status_breakdown-total returning

hashes_hidden_example :
    (list_users sql none (some true) (some "a") first_page (rehash (λ u. some "other") waiting)
      ≡ list_users sql none (some true) (some "a") first_page waiting)
    × (list_managers sql (rehash (λ u. some "other") waiting) ≡ list_managers sql waiting)
    × (list_employees sql (rehash (λ u. some "other") waiting) ≡ list_employees sql waiting)
hashes_hidden_example =
    hashes_hidden (λ u. some "other") sql none (some true) (some "a") first_page waiting

-- What is suggested for the request that has no laptop yet: the spare one.
abbrev options : List SuggestedDeviceResult
options = elim (suggested_devices 21 rivalled) [ ok rows ↦ rows | err e ↦ [] ]

suggested_devices-fit_example :
    Each
      (λ row.
        (item : Item) × (get_item item.id rivalled ≡ some item)
        × (row.base ≡ item_result_from item)
        × (item.status ≡ DeviceStatus.available)
        × (item.category_id ≡ rival.category_id)
        × (has_overlapping_assigned_booking item.id rival.requested_from rival.requested_to none
              rivalled
            ≡ false)
        × (row.active_bookings_count ≤ 1)
        × (row.active_bookings_count ≡ 1
            → (env : Env) (other_id from to : ℕ) (is_wfh : Bool) (actor_id : ℕ) (p : Request × Db)
            → ¬ (assign env other_id item.id from to is_wfh actor_id rivalled ≡ ok p)))
      options
unfolding suggested_devices get_request_or_404 get_request find or_raise ◌>>=◌
suggested_devices-fit_example =
    suggested_devices-fit 21 rivalled rival options rivalled-IsValid refl refl
