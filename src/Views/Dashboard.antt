-- ===== src/Views/Dashboard.antt =====
-- app/services/dashboard_service.py: the counts and the two lists of the dashboard.
use asset_pilot_fastapi.Views.Tickets.{support_result_from, SupportRequestResult}
use asset_pilot_fastapi.Repositories.Requests.{count_pending}
use asset_pilot_fastapi.Repositories.Queries.ItemQueries.{count_by_status}
use asset_pilot_fastapi.Repositories.Queries.RequestQueries.{list_recent, RequestListRow}
use asset_pilot_fastapi.Enums.{status_value, DeviceStatus}
use asset_pilot_fastapi.Repositories.Queries.TicketQueries.{
  count_pending_extensions, count_active, count_open, list_open, SupportListRow,
}
use asset_pilot_fastapi.Views.Requests.{result_from, RequestResult}
use asset_pilot_fastapi.Database.{Db}
use asset_pilot_fastapi.Prelude.{[], ◌∷◌, ◌∷◌, map, String, Option, ℕ, List, none, some}

-- `_STATUS_BREAKDOWN_STATUSES`: every status but that of a device that is back with its client.
abbrev pub status_breakdown_statuses : List DeviceStatus
status_breakdown_statuses =
    DeviceStatus.available ∷ DeviceStatus.assigned ∷ DeviceStatus.under_repair
    ∷ DeviceStatus.maintenance ∷ DeviceStatus.shipping_pending
    ∷ DeviceStatus.return_shipping_pending ∷ DeviceStatus.lost ∷ DeviceStatus.retired ∷ []

pub record DashboardSummary : Type 0 where
  pub status_breakdown : List (String × ℕ)
  pub pending_requests_count : ℕ
  pub open_support_count : ℕ
  pub active_handovers_count : ℕ
  pub pending_extensions_count : ℕ

-- `status_counts.get(status, 0)`
abbrev pub count_or_zero : Option ℕ → ℕ
count_or_zero none = 0
count_or_zero (some n) = n

unfoldable pub get_summary : Db → DashboardSummary
get_summary db = record {
  status_breakdown =
      map (λ status. (status_value status, count_or_zero (count_by_status db status)))
        status_breakdown_statuses;
  pending_requests_count = count_pending db;
  open_support_count = count_open db;
  active_handovers_count = count_active db;
  pending_extensions_count = count_pending_extensions db;
}

pub record RecentRequestEntry : Type 0 where
  pub base : RequestResult
  pub category_name : String
  pub requester_name : String

unfoldable pub recent_request_from : RequestListRow → RecentRequestEntry
unfolding result_from
recent_request_from row = record {
  base = result_from row.request;
  category_name = row.category_name;
  requester_name = row.requester_name;
}

pub record OpenSupportEntry : Type 0 where
  pub base : SupportRequestResult
  pub item_name : String
  pub requester_name : String

unfoldable pub open_support_from : SupportListRow → OpenSupportEntry
unfolding support_result_from
open_support_from row = record {
  base = support_result_from row.support_request;
  item_name = row.item_name;
  requester_name = row.requester_name;
}

unfoldable pub get_recent_requests : ℕ → Db → List RecentRequestEntry
unfolding recent_request_from
get_recent_requests limit db = map recent_request_from (list_recent limit db)

unfoldable pub get_open_support : ℕ → Db → List OpenSupportEntry
unfolding open_support_from
get_open_support limit db = map open_support_from (list_open limit db)
