-- ===== src/Repositories/Support.antt =====
-- app/repositories/support_request_repository.py: the open tickets of a device.
use asset_pilot_fastapi.Prelude.{ℕ, Bool, true, false, ◌&&◌, List, ◌==◌, filter, sort_by}
use asset_pilot_fastapi.Enums.{SupportStatus}
use asset_pilot_fastapi.Models.{SupportRequest}
use asset_pilot_fastapi.Database.{Db}

-- `_OPEN_STATUSES`
abbrev pub is_open : SupportStatus → Bool
is_open SupportStatus.open_status = true
is_open SupportStatus.in_progress = true
is_open SupportStatus.resolved = false

abbrev pub is_open_for : ℕ → SupportRequest → Bool
is_open_for item_id s = s.item_id == item_id && is_open s.status

unfoldable pub list_open_for_item : ℕ → Db → List SupportRequest
list_open_for_item item_id db =
    sort_by (λ (s : SupportRequest). s.filed_at) (filter (is_open_for item_id) db.support_requests)
