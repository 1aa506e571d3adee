-- ===== src/Examples/Requests.antt =====
-- The theorems on the life of a request and on users, applied.
use asset_pilot_fastapi.Examples.Valid.{holding-IsValid}
use asset_pilot_fastapi.Services.Lookup.{get_item_or_404, get_request_or_404}
use asset_pilot_fastapi.Properties.Requests.{cancel-strands}
use asset_pilot_fastapi.Properties.Users.{deactivate-blocked, deactivate-refused}
use asset_pilot_fastapi.Services.DeviceLog.{log_row, append}
use asset_pilot_fastapi.Result.{◌>>=◌, or_raise, raise_if, on_integrity_error, conflict, err}
use asset_pilot_fastapi.Enums.{DeviceStatus-discrete, RequestStatus-discrete, RequestStatus}
use asset_pilot_fastapi.Table.{replace, find}
use asset_pilot_fastapi.Examples.Data.{
  held_request, held_laptop, holding, employee, outside, value, waiting, request,
}
use asset_pilot_fastapi.Models.{Item, User, Request}
use asset_pilot_fastapi.Repositories.{
  get_extension_request, get_support_request, insert_request, insert_log, update_user,
  update_extension_request, update_support_request, update_item, get_item, update_request, get_user,
  get_request,
}
use asset_pilot_fastapi.Database.{
  user_collides, item_collides, collides, log_refers, extension_refers, support_refers, item_refers,
  request_refers, Db,
}
use asset_pilot_fastapi.Services.Requests.{cancel}
use asset_pilot_fastapi.Services.Users.{
  is_non_terminal, has_active_devices_or_requests, get_user_or_404, deactivate,
}
use asset_pilot_fastapi.Prelude.{ℕ, false, some, refl, ◌≡◌, [], ◌≡◌, ◌∷◌, ◌∷◌}

abbrev cancelled : Request × Db
cancelled = value (request, holding) (cancel outside 20 "gone" 1 holding)

cancel-strands_example :
    (cancelled.1.items ≡ holding.items) × ¬ (cancelled.0.status ≡ RequestStatus.assigned)
unfolding cancel update_request update_item update_support_request update_extension_request
    update_user append insert_log insert_request on_integrity_error raise_if or_raise ◌>>=◌
    get_request_or_404 get_item_or_404 get_request get_item get_user get_support_request
    get_extension_request find replace request_refers item_refers support_refers extension_refers
    log_refers collides item_collides user_collides log_row RequestStatus-discrete
    DeviceStatus-discrete
cancel-strands_example =
    cancel-strands outside 20 10 "gone" 1 20 holding cancelled.1 held_request cancelled.0
      cancelled.0 holding-IsValid refl refl refl refl refl refl

-- A database whose request was rejected.
abbrev refused : Request
refused = record request { status = RequestStatus.rejected }

abbrev closed : Db
closed = record waiting { requests = refused ∷ [] }

abbrev deactivated : User × Db
deactivated = value (employee, closed) (deactivate outside 2 closed)

deactivate-blocked_example :
    (get_user 2 deactivated.1 ≡ some deactivated.0)
    × (deactivated.0.is_active ≡ false)
    × ((item_id : ℕ) (item : Item)
        → get_item item_id deactivated.1 ≡ some item
        → ¬ (item.current_owner_id ≡ some 2))
    × ((request_id : ℕ) (request : Request)
        → get_request request_id deactivated.1 ≡ some request
        → request.requester_id ≡ 2
        → is_non_terminal request.status ≡ false)
unfolding deactivate get_user_or_404 has_active_devices_or_requests update_request update_item
    update_support_request update_extension_request update_user append insert_log insert_request
    on_integrity_error raise_if or_raise ◌>>=◌ get_request_or_404 get_item_or_404 get_request
    get_item get_user get_support_request get_extension_request find replace request_refers
    item_refers support_refers extension_refers log_refers collides item_collides user_collides
    log_row RequestStatus-discrete DeviceStatus-discrete
deactivate-blocked_example = deactivate-blocked outside 2 closed deactivated.1 deactivated.0 refl

deactivate-refused_example :
    deactivate outside 2 holding
    ≡ err (conflict "Cannot deactivate a user who currently holds a device or has an open request.")
unfolding get_user get_item find
deactivate-refused_example =
    deactivate-refused outside 2 10 holding employee held_laptop refl refl refl
