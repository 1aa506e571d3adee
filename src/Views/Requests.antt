-- ===== src/Views/Requests.antt =====
-- app/services/request_service.py: the listings of requests and their details. The assignment and
-- shipping services declare the same `RequestResult`.
use asset_pilot_fastapi.Pagination.{Page, PaginationParams}
use asset_pilot_fastapi.Database.{Db}
use asset_pilot_fastapi.Repositories.Queries.{column, Sql}
use asset_pilot_fastapi.Enums.{
  RejectedByEnum, MgrApprovalStatus, RequestPriority, RequestStatus, DeviceStatus, OwnerType,
}
use asset_pilot_fastapi.Views.{page_of}
use asset_pilot_fastapi.Models.{Request, Item}
use asset_pilot_fastapi.Repositories.Queries.RequestQueries.{
  list_requests, list_it_approvals, get_detail, RequestFilter, RequestDetailRow, RequestListRow,
}
use asset_pilot_fastapi.Prelude.{Bool, Option, String, ℕ}
use asset_pilot_fastapi.Result.{not_found, or_raise, Result, ok, ◌>>=◌}

pub record RequestResult : Type 0 where
  pub id : ℕ
  pub requester_id : ℕ
  pub category_id : ℕ
  pub assigned_item_id : Option ℕ
  pub requested_from : ℕ
  pub requested_to : ℕ
  pub assigned_from : Option ℕ
  pub assigned_to : Option ℕ
  pub status : RequestStatus
  pub priority : RequestPriority
  pub note : Option String
  pub requires_mgr_approval : Bool
  pub mgr_approval_status : MgrApprovalStatus
  pub manager_id : Option ℕ
  pub manager_decision_note : Option String
  pub manager_decided_at : Option ℕ
  pub it_decided_by : Option ℕ
  pub it_decision_note : Option String
  pub it_decided_at : Option ℕ
  pub rejected_by : Option RejectedByEnum
  pub rejected_reason : Option String
  pub cancelled_by : Option ℕ
  pub cancelled_at : Option ℕ
  pub is_wfh : Bool
  pub ship_tracking_url : Option String
  pub ship_initiated_at : Option ℕ
  pub ship_completed_at : Option ℕ
  pub return_tracking_url : Option String
  pub return_initiated_at : Option ℕ
  pub completed_at : Option ℕ
  pub completed_by : Option ℕ
  pub completed_next_status : Option DeviceStatus
  pub is_client_direct : Bool
  pub created_at : ℕ
  pub updated_at : ℕ

unfoldable pub result_from : Request → RequestResult
result_from request = record {
  id = request.id;
  requester_id = request.requester_id;
  category_id = request.category_id;
  assigned_item_id = request.assigned_item_id;
  requested_from = request.requested_from;
  requested_to = request.requested_to;
  assigned_from = request.assigned_from;
  assigned_to = request.assigned_to;
  status = request.status;
  priority = request.priority;
  note = request.note;
  requires_mgr_approval = request.requires_mgr_approval;
  mgr_approval_status = request.mgr_approval_status;
  manager_id = request.manager_id;
  manager_decision_note = request.manager_decision_note;
  manager_decided_at = request.manager_decided_at;
  it_decided_by = request.it_decided_by;
  it_decision_note = request.it_decision_note;
  it_decided_at = request.it_decided_at;
  rejected_by = request.rejected_by;
  rejected_reason = request.rejected_reason;
  cancelled_by = request.cancelled_by;
  cancelled_at = request.cancelled_at;
  is_wfh = request.is_wfh;
  ship_tracking_url = request.ship_tracking_url;
  ship_initiated_at = request.ship_initiated_at;
  ship_completed_at = request.ship_completed_at;
  return_tracking_url = request.return_tracking_url;
  return_initiated_at = request.return_initiated_at;
  completed_at = request.completed_at;
  completed_by = request.completed_by;
  completed_next_status = request.completed_next_status;
  is_client_direct = request.is_client_direct;
  created_at = request.created_at;
  updated_at = request.updated_at;
}

pub record RequestListEntry : Type 0 where
  pub base : RequestResult
  pub category_name : String
  pub requester_name : String

unfoldable pub list_entry_from : RequestListRow → RequestListEntry
unfolding result_from
list_entry_from row = record {
  base = result_from row.request;
  category_name = row.category_name;
  requester_name = row.requester_name;
}

pub record AssignedItemSummary : Type 0 where
  pub id : ℕ
  pub name : String
  pub serial_no : String
  pub category_id : ℕ
  pub owner_type : OwnerType
  pub client_name : Option String
  pub status : DeviceStatus
  pub current_owner_id : Option ℕ
  pub purchase_date : Option ℕ
  pub qr_code_token : ℕ

unfoldable pub assigned_item_from : Item → AssignedItemSummary
assigned_item_from item = record {
  id = item.id;
  name = item.name;
  serial_no = item.serial_no;
  category_id = item.category_id;
  owner_type = item.owner_type;
  client_name = item.client_name;
  status = item.status;
  current_owner_id = item.current_owner_id;
  purchase_date = item.purchase_date;
  qr_code_token = item.qr_code_token;
}

pub record RequestDetail : Type 0 where
  pub base : RequestResult
  pub category_name : String
  pub requester_name : String
  pub manager_name : Option String
  pub it_decided_by_name : Option String
  pub cancelled_by_name : Option String
  pub completed_by_name : Option String
  pub item : Option AssignedItemSummary

unfoldable pub detail_from : RequestDetailRow → RequestDetail
unfolding result_from assigned_item_from
detail_from row = record {
  base = result_from row.request;
  category_name = row.category_name;
  requester_name = row.requester_name;
  manager_name = row.manager_name;
  it_decided_by_name = row.it_decided_by_name;
  cancelled_by_name = row.cancelled_by_name;
  completed_by_name = row.completed_by_name;
  item = column assigned_item_from row.item;
}

unfoldable pub list_request_entries :
    Sql → RequestFilter → PaginationParams → Db → Page RequestListEntry
unfolding list_entry_from page_of
list_request_entries sql f pagination db =
    page_of list_entry_from (list_requests sql f pagination db)

unfoldable pub list_approval_entries : PaginationParams → Db → Page RequestListEntry
unfolding list_entry_from page_of
list_approval_entries pagination db = page_of list_entry_from (list_it_approvals pagination db)

unfoldable pub get_request_detail : ℕ → Db → Result RequestDetail
unfolding detail_from
get_request_detail request_id db = do
  row ← or_raise (get_detail request_id db) (not_found "Request not found.")
  ok (detail_from row)
