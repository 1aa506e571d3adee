-- ===== src/Views/ItemResults.antt =====
-- app/services/inventory_service.py: what is shown of a device and of what concerns it. The support and
-- extension services declare `ItemResult` again as their summary of a device, and `SupportRequestSummary`
-- has the fields of `SupportRequestResult`.

use asset_pilot_fastapi.Enums.{
  SupportResolution, DeviceStatus, SupportStatus, HandoverStatus, UserRole, SupportType, OwnerType,
}
use asset_pilot_fastapi.Repositories.Queries.ItemQueries.{ItemListRow}
use asset_pilot_fastapi.Models.{Request, HandoverRequest, ItemCategory, SupportRequest, Item, User}
use asset_pilot_fastapi.Views.Requests.{result_from, RequestResult}
use asset_pilot_fastapi.Prelude.{Bool, String, Option, ℕ}

pub record ItemResult : Type 0 where
  pub id : ℕ
  pub name : String
  pub serial_no : String
  pub category_id : ℕ
  pub owner_type : OwnerType
  pub client_name : Option String
  pub status : DeviceStatus
  pub current_owner_id : Option ℕ
  pub purchase_date : Option ℕ
  pub qr_code_token : ℕ
  pub created_at : ℕ
  pub updated_at : ℕ

unfoldable pub item_result_from : Item → ItemResult
item_result_from item = record {
  id = item.id;
  name = item.name;
  serial_no = item.serial_no;
  category_id = item.category_id;
  owner_type = item.owner_type;
  client_name = item.client_name;
  status = item.status;
  current_owner_id = item.current_owner_id;
  purchase_date = item.purchase_date;
  qr_code_token = item.qr_code_token;
  created_at = item.created_at;
  updated_at = item.updated_at;
}

pub record ItemListEntry : Type 0 where
  pub base : ItemResult
  pub category_name : String
  pub current_owner_name : Option String

unfoldable pub item_list_entry_from : ItemListRow → ItemListEntry
unfolding item_result_from
item_list_entry_from row = record {
  base = item_result_from row.item;
  category_name = row.category_name;
  current_owner_name = row.current_owner_name;
}

pub record CategoryResult : Type 0 where
  pub id : ℕ
  pub name : String
  pub description : Option String
  pub requires_mgr_approval : Bool
  pub is_active : Bool

unfoldable pub category_result_from : ItemCategory → CategoryResult
category_result_from category = record {
  id = category.id;
  name = category.name;
  description = category.description;
  requires_mgr_approval = category.requires_mgr_approval;
  is_active = category.is_active;
}

pub record UserSummary : Type 0 where
  pub id : ℕ
  pub name : String
  pub email : String
  pub role : UserRole
  pub manager_id : Option ℕ
  pub is_active : Bool

unfoldable pub user_summary_from : User → UserSummary
user_summary_from user = record {
  id = user.id;
  name = user.name;
  email = user.email;
  role = user.role;
  manager_id = user.manager_id;
  is_active = user.is_active;
}

pub record RequestSummary : Type 0 where
  pub base : RequestResult
  pub requester_name : Option String

unfoldable pub request_summary_from : Request → Option String → RequestSummary
unfolding result_from
request_summary_from request requester_name = record {
  base = result_from request;
  requester_name = requester_name;
}

pub record SupportRequestSummary : Type 0 where
  pub id : ℕ
  pub item_id : ℕ
  pub requester_id : ℕ
  pub request_id : Option ℕ
  pub type : SupportType
  pub description : String
  pub status : SupportStatus
  pub resolution : Option SupportResolution
  pub it_note : Option String
  pub swapped_to_item_id : Option ℕ
  pub filed_at : ℕ
  pub resolved_by : Option ℕ
  pub resolved_at : Option ℕ
  pub auto_closed : Bool
  pub created_at : ℕ
  pub updated_at : ℕ

unfoldable pub support_summary_from : SupportRequest → SupportRequestSummary
support_summary_from support = record {
  id = support.id;
  item_id = support.item_id;
  requester_id = support.requester_id;
  request_id = support.request_id;
  type = support.type;
  description = support.description;
  status = support.status;
  resolution = support.resolution;
  it_note = support.it_note;
  swapped_to_item_id = support.swapped_to_item_id;
  filed_at = support.filed_at;
  resolved_by = support.resolved_by;
  resolved_at = support.resolved_at;
  auto_closed = support.auto_closed;
  created_at = support.created_at;
  updated_at = support.updated_at;
}

pub record HandoverSummary : Type 0 where
  pub id : ℕ
  pub item_id : ℕ
  pub owner_id : ℕ
  pub owner_name : Option String
  pub borrower_id : ℕ
  pub borrower_name : Option String
  pub requested_duration_hours : Option ℕ
  pub status : HandoverStatus
  pub requested_at : ℕ
  pub decided_at : Option ℕ
  pub completed_at : Option ℕ
  pub note : Option String
  pub created_at : ℕ
  pub updated_at : ℕ

unfoldable pub handover_summary_from :
    Option String → Option String → HandoverRequest → HandoverSummary
handover_summary_from owner_name borrower_name handover = record {
  id = handover.id;
  item_id = handover.item_id;
  owner_id = handover.owner_id;
  owner_name = owner_name;
  borrower_id = handover.borrower_id;
  borrower_name = borrower_name;
  requested_duration_hours = handover.requested_duration_hours;
  status = handover.status;
  requested_at = handover.requested_at;
  decided_at = handover.decided_at;
  completed_at = handover.completed_at;
  note = handover.note;
  created_at = handover.created_at;
  updated_at = handover.updated_at;
}
