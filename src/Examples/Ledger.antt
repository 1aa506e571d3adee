-- ===== src/Examples/Ledger.antt =====
-- The theorems on the ledger of devices, applied.
use asset_pilot_fastapi.Enums.{DeviceStatus-discrete, RequestStatus-discrete}
use asset_pilot_fastapi.Table.{replace, find}
use asset_pilot_fastapi.Services.Lookup.{get_item_or_404, get_request_or_404}
use asset_pilot_fastapi.Repositories.{
  get_extension_request, get_support_request, get_user, get_item, get_request, insert_request,
  insert_log, update_user, update_extension_request, update_support_request, update_item,
  update_request,
}
use asset_pilot_fastapi.Repositories.Requests.{overlaps, has_overlapping_assigned_booking}
use asset_pilot_fastapi.Ledger.Refinement.{assign-taken, serve-Step}
use asset_pilot_fastapi.Database.{
  user_collides, item_collides, collides, log_refers, extension_refers, support_refers, item_refers,
  request_refers, Db,
}
use asset_pilot_fastapi.Services.Assignment.{save_assignment, assign}
use asset_pilot_fastapi.Api.{serve, Call}
use asset_pilot_fastapi.Models.{Request}
use asset_pilot_fastapi.Examples.Data.{outside, value, request, waiting}
use asset_pilot_fastapi.Examples.Valid.{waiting-IsValid}
use asset_pilot_fastapi.Ledger.{Step, KeptBut, ledger}
use asset_pilot_fastapi.Prelude.{refl, ◌≡◌, ◌≡◌, true, none, some}
use asset_pilot_fastapi.Result.{◌>>=◌, or_raise, raise_if, on_integrity_error}
use asset_pilot_fastapi.Services.DeviceLog.{log_row, append}

abbrev assigning : Call
assigning = Call.assign_call 20 10 30 40 true 1

serve-Step_example : Step (ledger waiting) (ledger (serve outside assigning waiting).1)
serve-Step_example = serve-Step outside assigning waiting waiting-IsValid

abbrev taken : Request × Db
taken = value (request, waiting) (assign outside 20 10 30 40 true 1 waiting)

assign-taken_example :
    (ledger waiting 10 ≡ none)
    × (ledger taken.1 10 ≡ some 20)
    × KeptBut 10 (ledger waiting) (ledger taken.1)
unfolding assign overlaps save_assignment has_overlapping_assigned_booking update_request
    update_item update_support_request update_extension_request update_user append insert_log
    insert_request on_integrity_error raise_if or_raise ◌>>=◌ get_request_or_404 get_item_or_404
    get_request get_item get_user get_support_request get_extension_request find replace
    request_refers item_refers support_refers extension_refers log_refers collides item_collides
    user_collides log_row RequestStatus-discrete DeviceStatus-discrete
assign-taken_example =
    assign-taken outside 20 10 30 40 true 1 waiting taken.1 taken.0 waiting-IsValid refl
