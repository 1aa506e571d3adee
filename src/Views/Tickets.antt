-- ===== src/Views/Tickets.antt =====
-- app/services/support_service.py: the listing and the detail of tickets. The summary of the requester
-- has the fields of `UserResult`.
use asset_pilot_fastapi.Views.ItemResults.{item_result_from, ItemResult}
use asset_pilot_fastapi.Views.People.{UserResult, user_result_from}
use asset_pilot_fastapi.Database.{Db}
use asset_pilot_fastapi.Enums.{SupportResolution, SupportStatus, SupportType}
use asset_pilot_fastapi.Models.{SupportRequest}
use asset_pilot_fastapi.Repositories.Queries.TicketQueries.{
  list_support, get_support_detail, SupportDetailRow, SupportListRow,
}
use asset_pilot_fastapi.Prelude.{map, Bool, List, String, Option, ℕ}
use asset_pilot_fastapi.Result.{not_found, or_raise, Result, ok, ◌>>=◌}

pub record SupportRequestResult : Type 0 where
  pub id : ℕ
  pub item_id : ℕ
  pub requester_id : ℕ
  pub request_id : Option ℕ
  pub type : SupportType
  pub description : String
  pub status : SupportStatus
  pub resolution : Option SupportResolution
  pub it_note : Option String
  pub swapped_to_item_id : Option ℕ
  pub filed_at : ℕ
  pub resolved_by : Option ℕ
  pub resolved_at : Option ℕ
  pub auto_closed : Bool
  pub created_at : ℕ
  pub updated_at : ℕ

unfoldable pub support_result_from : SupportRequest → SupportRequestResult
support_result_from support_request = record {
  id = support_request.id;
  item_id = support_request.item_id;
  requester_id = support_request.requester_id;
  request_id = support_request.request_id;
  type = support_request.type;
  description = support_request.description;
  status = support_request.status;
  resolution = support_request.resolution;
  it_note = support_request.it_note;
  swapped_to_item_id = support_request.swapped_to_item_id;
  filed_at = support_request.filed_at;
  resolved_by = support_request.resolved_by;
  resolved_at = support_request.resolved_at;
  auto_closed = support_request.auto_closed;
  created_at = support_request.created_at;
  updated_at = support_request.updated_at;
}

pub record SupportListResult : Type 0 where
  pub base : SupportRequestResult
  pub item_name : String
  pub requester_name : String

unfoldable pub support_list_result_from : SupportListRow → SupportListResult
unfolding support_result_from
support_list_result_from row = record {
  base = support_result_from row.support_request;
  item_name = row.item_name;
  requester_name = row.requester_name;
}

pub record SupportDetailResult : Type 0 where
  pub base : SupportRequestResult
  pub item : ItemResult
  pub requester : UserResult

unfoldable pub support_detail_from : SupportDetailRow → SupportDetailResult
unfolding support_result_from item_result_from user_result_from
support_detail_from row = record {
  base = support_result_from row.support_request;
  item = item_result_from row.item;
  requester = user_result_from row.requester;
}

unfoldable pub list_support_requests :
    Option SupportStatus → Option SupportType → Option ℕ → Db → List SupportListResult
unfolding support_list_result_from
list_support_requests status type item_id db =
    map support_list_result_from (list_support status type item_id db)

unfoldable pub get_ticket_detail : ℕ → Db → Result SupportDetailResult
unfolding support_detail_from
get_ticket_detail support_request_id db = do
  row ← or_raise (get_support_detail support_request_id db) (not_found "Support request not found.")
  ok (support_detail_from row)
