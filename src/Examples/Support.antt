-- ===== src/Examples/Support.antt =====
-- The theorems on support tickets, extensions and the inventory, applied.
use asset_pilot_fastapi.Properties.Extension.{approve-once}
use asset_pilot_fastapi.Services.Extension.{allows_it_approval}
use asset_pilot_fastapi.Services.Extension
use asset_pilot_fastapi.Properties.Support.{resolve-once, swap-stored}
use asset_pilot_fastapi.Table.{replace, find}
use asset_pilot_fastapi.Services.Lookup.{get_item_or_404, get_request_or_404}
use asset_pilot_fastapi.Result.{conflict, err, ◌>>=◌, or_raise, raise_if, on_integrity_error}
use asset_pilot_fastapi.Services.DeviceLog.{log_row, append}
use asset_pilot_fastapi.Properties.Inventory.{change_status-stored, apply_updates_again}
use asset_pilot_fastapi.Enums.{
  ExtensionStatus-discrete, status_value, SupportStatus, DeviceStatus-discrete,
  RequestStatus-discrete, SupportStatus-discrete, MgrApprovalStatus, SupportResolution,
  DeviceStatus, ExtensionStatus,
}
use asset_pilot_fastapi.Repositories.{
  get_extension_request, get_support_request, get_user, get_item, get_request, insert_request,
  insert_log, update_user, update_extension_request, update_support_request, update_item,
  update_request,
}
use asset_pilot_fastapi.Examples.Data.{held_laptop, ticket, outside, laptop, value, holding}
use asset_pilot_fastapi.Services.Support.{
  get_ticket_or_404, log_swap, resolve_device, save_swap, swap, resolve,
}
use asset_pilot_fastapi.Database.{
  item_key, user_collides, item_collides, collides, log_refers, extension_refers, support_refers,
  item_refers, request_refers, Db,
}
use asset_pilot_fastapi.Models.{Request, DeviceLog, Item, SupportRequest, ExtensionRequest}
use asset_pilot_fastapi.Services.Inventory.{status_event, Updates, change_status, apply_updates}
use asset_pilot_fastapi.Prelude.{true, refl, ◌++◌, ◌++◌, ◌≡◌, false, [], ◌≡◌, ℕ, ◌∷◌, some, none}

abbrev swapped : Unit {0} × Db
swapped =
    value (tt, holding) (swap outside ticket held_laptop 11 DeviceStatus.under_repair 1 holding)

swap-stored_example :
    (request_id : ℕ) × (request : Request) × (new_item : Item) × (t : ℕ) × (t1 : ℕ) × (t2 : ℕ)
    × (ticket.request_id ≡ some request_id)
    × (get_request request_id holding ≡ some request)
    × (get_item 11 holding ≡ some new_item)
    × (new_item.status ≡ DeviceStatus.available)
    × (new_item.category_id ≡ held_laptop.category_id)
    × (get_item held_laptop.id swapped.1
        ≡ some (record held_laptop {
          status = DeviceStatus.under_repair;
          current_owner_id = none;
          updated_at = t;
        }))
    × (get_item 11 swapped.1
        ≡ some (record new_item {
          status = DeviceStatus.assigned;
          current_owner_id = some request.requester_id;
          updated_at = t1;
        }))
    × (get_request request_id swapped.1
        ≡ some (record request { assigned_item_id = some 11; updated_at = t2 }))
unfolding swap save_swap log_swap update_request update_item update_support_request
    update_extension_request update_user append insert_log insert_request on_integrity_error
    raise_if or_raise ◌>>=◌ get_request_or_404 get_item_or_404 get_request get_item get_user
    get_support_request get_extension_request find replace request_refers item_refers support_refers
    extension_refers log_refers collides item_collides user_collides log_row RequestStatus-discrete
    DeviceStatus-discrete
swap-stored_example =
    swap-stored outside ticket held_laptop 11 DeviceStatus.under_repair 1 holding swapped refl refl

abbrev resolved : SupportRequest × Db
resolved =
    value (ticket, holding)
      (resolve outside 50 SupportResolution.swapped none (some 11) (some DeviceStatus.under_repair)
        1 holding)

resolve-once_example :
    (get_support_request 50 resolved.1 ≡ some resolved.0)
    × (resolved.0.status ≡ SupportStatus.resolved)
    × (resolved.0.resolution ≡ some SupportResolution.swapped)
    × (resolved.0.resolved_by ≡ some 1)
    × (resolve outside 50 SupportResolution.remote_resolved none none none 1 resolved.1
        ≡ err (conflict "This support request is already resolved."))
unfolding resolve resolve_device swap save_swap log_swap get_ticket_or_404 SupportStatus-discrete
    update_request update_item update_support_request update_extension_request update_user append
    insert_log insert_request on_integrity_error raise_if or_raise ◌>>=◌ get_request_or_404
    get_item_or_404 get_request get_item get_user get_support_request get_extension_request find
    replace request_refers item_refers support_refers extension_refers log_refers collides
    item_collides user_collides log_row RequestStatus-discrete DeviceStatus-discrete
resolve-once_example =
    resolve-once outside outside 50 SupportResolution.swapped SupportResolution.remote_resolved none
      none (some 11) none (some DeviceStatus.under_repair) none 1 1 holding resolved.1 resolved.0
      refl

abbrev extension : ExtensionRequest
extension = record {
  id = 60;
  original_request_id = 20;
  requester_id = 2;
  current_assigned_to = 40;
  extended_to = 55;
  status = ExtensionStatus.pending;
  requires_mgr_approval = false;
  manager_id = none;
  mgr_approval_status = MgrApprovalStatus.not_required;
  manager_note = none;
  manager_decided_at = none;
  it_decided_by = none;
  it_note = none;
  it_decided_at = none;
  created_at = 0;
  updated_at = 0;
}

abbrev extending : Db
extending = record holding { extension_requests = extension ∷ [] }

abbrev approved : ExtensionRequest × Db
approved = value (extension, extending) (Extension.approve outside 60 none 1 extending)

approve-once_example :
    (extension : ExtensionRequest) × (parent : Request) × (time : ℕ) × (get_extension_request 60
        extending
      ≡ some extension)
    × (extension.status ≡ ExtensionStatus.pending)
    × (allows_it_approval extension.mgr_approval_status ≡ true)
    × (get_extension_request 60 approved.1 ≡ some approved.0)
    × (approved.0.status ≡ ExtensionStatus.approved)
    × (approved.0.it_decided_by ≡ some 1)
    × (get_request extension.original_request_id extending ≡ some parent)
    × (get_request extension.original_request_id approved.1
        ≡ some (record parent { assigned_to = some extension.extended_to; updated_at = time }))
    × (approved.1.items ≡ extending.items)
    × (Extension.approve outside 60 none 1 approved.1
        ≡ err (conflict "Only pending extension requests can be approved."))
    × (Extension.reject outside 60 none 1 approved.1
        ≡ err (conflict "Only pending extension requests can be rejected."))
unfolding Extension.approve Extension.get_extension_or_404 Extension.get_parent_request_or_404
    Extension.log_decision Extension.allows_it_approval ExtensionStatus-discrete update_request
    update_item update_support_request update_extension_request update_user append insert_log
    insert_request on_integrity_error raise_if or_raise ◌>>=◌ get_request_or_404 get_item_or_404
    get_request get_item get_user get_support_request get_extension_request find replace
    request_refers item_refers support_refers extension_refers log_refers collides item_collides
    user_collides log_row RequestStatus-discrete DeviceStatus-discrete
approve-once_example =
    approve-once outside outside 60 none none 1 1 extending approved.1 approved.0 refl

abbrev updates : Updates
updates = record {
  name = some "Laptop C";
  category_id = none;
  client_name = some none;
  purchase_date = some (some 9);
}

apply_updates_again_example :
    apply_updates updates (apply_updates updates laptop).0 ≡ ((apply_updates updates laptop).0, [])
apply_updates_again_example = apply_updates_again updates laptop

abbrev restatused : Item × Db
restatused =
    value (laptop, holding) (change_status outside 10 DeviceStatus.lost (some "left") 1 holding)

change_status-stored_example :
    (item : Item) × (entry : DeviceLog) × (get_item 10 holding ≡ some item)
    × (get_item 10 restatused.1 ≡ some restatused.0)
    × (restatused.0
        ≡ record item { status = DeviceStatus.lost; updated_at = restatused.0.updated_at })
    × (restatused.1 ≡ record holding {
      items = replace item_key restatused.0 holding.items;
      device_logs = holding.device_logs ++ entry ∷ [];
    })
    × (entry.item_id ≡ 10)
    × (entry.event_type ≡ status_event DeviceStatus.lost)
    × (entry.from_value ≡ some (status_value item.status))
    × (entry.to_value ≡ some (status_value DeviceStatus.lost))
    × (entry.note ≡ (some "left"))
unfolding change_status update_request update_item update_support_request update_extension_request
    update_user append insert_log insert_request on_integrity_error raise_if or_raise ◌>>=◌
    get_request_or_404 get_item_or_404 get_request get_item get_user get_support_request
    get_extension_request find replace request_refers item_refers support_refers extension_refers
    log_refers collides item_collides user_collides log_row RequestStatus-discrete
    DeviceStatus-discrete
change_status-stored_example =
    change_status-stored outside 10 DeviceStatus.lost (some "left") 1 holding restatused.1
      restatused.0 refl
