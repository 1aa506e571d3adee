-- ===== src/Views/Items.antt =====
-- app/services/inventory_service.py: the listing of devices and the view of one device.
use asset_pilot_fastapi.Views.ItemResults.{
  SupportRequestSummary, support_summary_from, UserSummary, user_summary_from, HandoverSummary,
  category_result_from, RequestSummary, CategoryResult, ItemListEntry, ItemResult,
  handover_summary_from, request_summary_from, item_list_entry_from, item_result_from,
}
use asset_pilot_fastapi.Repositories.Support.{list_open_for_item}
use asset_pilot_fastapi.Repositories.Queries.TicketQueries.{get_accepted_for_item}
use asset_pilot_fastapi.Pagination.{Page, PaginationParams}
use asset_pilot_fastapi.Repositories.Queries.RequestQueries.{get_active_for_item}
use asset_pilot_fastapi.Services.Lookup.{get_item_or_404}
use asset_pilot_fastapi.Repositories.{get_category, get_user}
use asset_pilot_fastapi.Database.{Db}
use asset_pilot_fastapi.Repositories.Queries.{outer, user_name, column, Sql}
use asset_pilot_fastapi.Views.{page_of}
use asset_pilot_fastapi.Repositories.Queries.ItemQueries.{list_items, ItemFilter}
use asset_pilot_fastapi.Models.{Request, HandoverRequest, User}
use asset_pilot_fastapi.Prelude.{map, ◌==◌, ◌==◌, if◌then◌else◌, List, Option, ℕ, none, some}
use asset_pilot_fastapi.Result.{not_found, or_raise, Result, ok, ◌>>=◌}

pub record ItemDetail : Type 0 where
  pub item : ItemResult
  pub category : CategoryResult
  pub current_owner : Option UserSummary
  pub current_request : Option RequestSummary
  pub open_support : List SupportRequestSummary
  pub active_handover : Option HandoverSummary

unfoldable pub list_item_entries : Sql → ItemFilter → PaginationParams → Db → Page ItemListEntry
unfolding item_list_entry_from page_of
list_item_entries sql f pagination db =
    page_of item_list_entry_from (list_items sql f pagination db)

-- The owner, if they are the requester, is not read again.
unfoldable pub requester_of : Option User → Request → Db → Option User
requester_of none request db = get_user request.requester_id db
requester_of (some owner) request db =
    if owner.id == request.requester_id then some owner else get_user request.requester_id db

unfoldable pub current_request_of : Option User → ℕ → Db → Option RequestSummary
unfolding request_summary_from
current_request_of owner item_id db =
    column
      (λ request.
        request_summary_from request
          (column (λ (u : User). u.name) (requester_of owner request db)))
      (get_active_for_item item_id db)

unfoldable pub handover_of : HandoverRequest → Db → HandoverSummary
unfolding handover_summary_from
handover_of handover db =
    handover_summary_from (user_name db handover.owner_id) (user_name db handover.borrower_id)
      handover

unfoldable pub get_item_detail : ℕ → Db → Result ItemDetail
unfolding item_result_from category_result_from user_summary_from support_summary_from handover_of
get_item_detail item_id db = do
  item ← get_item_or_404 item_id db
  category ← or_raise (get_category item.category_id db) (not_found "Item category not found.")
  let owner = outer (λ k. get_user k db) item.current_owner_id
  accepted ← get_accepted_for_item item.id db
  ok (record {
    item = item_result_from item;
    category = category_result_from category;
    current_owner = column user_summary_from owner;
    current_request = current_request_of owner item.id db;
    open_support = map support_summary_from (list_open_for_item item.id db);
    active_handover = column (λ handover. handover_of handover db) accepted;
  })
