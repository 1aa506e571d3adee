-- ===== src/Services/Lookup.antt =====
-- The `_get_…_or_404` methods that the services share the text of, and the tests of statuses.
use asset_pilot_fastapi.Prelude.{ℕ, Bool, same}
use asset_pilot_fastapi.Result.{Result, or_raise, not_found}
use asset_pilot_fastapi.Enums.{DeviceStatus, DeviceStatus-discrete}
use asset_pilot_fastapi.Models.{Item, Request}
use asset_pilot_fastapi.Database.{Db}
use asset_pilot_fastapi.Repositories.{get_item, get_request}

abbrev pub device_is : DeviceStatus → DeviceStatus → Bool
device_is = same DeviceStatus-discrete

unfoldable pub get_request_or_404 : ℕ → Db → Result Request
get_request_or_404 request_id db =
    or_raise (get_request request_id db) (not_found "Request not found.")

unfoldable pub get_item_or_404 : ℕ → Db → Result Item
get_item_or_404 item_id db = or_raise (get_item item_id db) (not_found "Item not found.")
