-- ===== src/Views/Extensions.antt =====
-- app/services/extension_service.py and handover_service.py: the listings, and the detail of an extension.
-- The summaries of a device, a request and a requester have the fields of `ItemResult`, `RequestResult` and
-- `UserResult`.
use asset_pilot_fastapi.Views.ItemResults.{item_result_from, ItemResult}
use asset_pilot_fastapi.Views.People.{UserResult, user_result_from}
use asset_pilot_fastapi.Database.{Db}
use asset_pilot_fastapi.Enums.{MgrApprovalStatus, ExtensionStatus, HandoverStatus}
use asset_pilot_fastapi.Models.{ExtensionRequest}
use asset_pilot_fastapi.Views.Requests.{result_from, RequestResult}
use asset_pilot_fastapi.Repositories.Queries.TicketQueries.{
  list_handovers, list_extensions, get_extension_detail, ExtensionDetailRow, HandoverListRow,
  ExtensionListRow,
}
use asset_pilot_fastapi.Prelude.{map, Bool, List, String, Option, ℕ}
use asset_pilot_fastapi.Result.{not_found, or_raise, Result, ok, ◌>>=◌}

pub record ExtensionResult : Type 0 where
  pub id : ℕ
  pub original_request_id : ℕ
  pub requester_id : ℕ
  pub current_assigned_to : ℕ
  pub extended_to : ℕ
  pub status : ExtensionStatus
  pub requires_mgr_approval : Bool
  pub manager_id : Option ℕ
  pub mgr_approval_status : MgrApprovalStatus
  pub manager_note : Option String
  pub manager_decided_at : Option ℕ
  pub it_decided_by : Option ℕ
  pub it_note : Option String
  pub it_decided_at : Option ℕ
  pub created_at : ℕ
  pub updated_at : ℕ

unfoldable pub extension_result_from : ExtensionRequest → ExtensionResult
extension_result_from extension_request = record {
  id = extension_request.id;
  original_request_id = extension_request.original_request_id;
  requester_id = extension_request.requester_id;
  current_assigned_to = extension_request.current_assigned_to;
  extended_to = extension_request.extended_to;
  status = extension_request.status;
  requires_mgr_approval = extension_request.requires_mgr_approval;
  manager_id = extension_request.manager_id;
  mgr_approval_status = extension_request.mgr_approval_status;
  manager_note = extension_request.manager_note;
  manager_decided_at = extension_request.manager_decided_at;
  it_decided_by = extension_request.it_decided_by;
  it_note = extension_request.it_note;
  it_decided_at = extension_request.it_decided_at;
  created_at = extension_request.created_at;
  updated_at = extension_request.updated_at;
}

pub record ExtensionListResult : Type 0 where
  pub base : ExtensionResult
  pub item_name : String
  pub requester_name : String

unfoldable pub extension_list_result_from : ExtensionListRow → ExtensionListResult
unfolding extension_result_from
extension_list_result_from row = record {
  base = extension_result_from row.extension_request;
  item_name = row.item_name;
  requester_name = row.requester_name;
}

pub record ExtensionDetailResult : Type 0 where
  pub base : ExtensionResult
  pub request : RequestResult
  pub item : ItemResult
  pub requester : UserResult

unfoldable pub extension_detail_from : ExtensionDetailRow → ExtensionDetailResult
unfolding extension_result_from result_from item_result_from user_result_from
extension_detail_from row = record {
  base = extension_result_from row.extension_request;
  request = result_from row.request;
  item = item_result_from row.item;
  requester = user_result_from row.requester;
}

pub record HandoverListResult : Type 0 where
  pub id : ℕ
  pub item_id : ℕ
  pub owner_id : ℕ
  pub borrower_id : ℕ
  pub requested_duration_hours : Option ℕ
  pub status : HandoverStatus
  pub requested_at : ℕ
  pub decided_at : Option ℕ
  pub completed_at : Option ℕ
  pub note : Option String
  pub created_at : ℕ
  pub updated_at : ℕ
  pub item_name : String
  pub owner_name : String
  pub borrower_name : String

unfoldable pub handover_result_from : HandoverListRow → HandoverListResult
handover_result_from row = record {
  id = row.handover_request.id;
  item_id = row.handover_request.item_id;
  owner_id = row.handover_request.owner_id;
  borrower_id = row.handover_request.borrower_id;
  requested_duration_hours = row.handover_request.requested_duration_hours;
  status = row.handover_request.status;
  requested_at = row.handover_request.requested_at;
  decided_at = row.handover_request.decided_at;
  completed_at = row.handover_request.completed_at;
  note = row.handover_request.note;
  created_at = row.handover_request.created_at;
  updated_at = row.handover_request.updated_at;
  item_name = row.item_name;
  owner_name = row.owner_name;
  borrower_name = row.borrower_name;
}

unfoldable pub list_extension_requests : Option ExtensionStatus → Db → List ExtensionListResult
unfolding extension_list_result_from
list_extension_requests status db = map extension_list_result_from (list_extensions status db)

unfoldable pub get_extension_view : ℕ → Db → Result ExtensionDetailResult
unfolding extension_detail_from
get_extension_view extension_request_id db = do
  row ←
      or_raise (get_extension_detail extension_request_id db)
        (not_found "Extension request not found.")
  ok (extension_detail_from row)

unfoldable pub list_handover_requests :
    Option HandoverStatus → Option ℕ → Db → List HandoverListResult
unfolding handover_result_from
list_handover_requests status item_id db =
    map handover_result_from (list_handovers status item_id db)
