-- ===== src/Views/Queues.antt =====
-- app/services/assignment_service.py and shipping_service.py: what is suggested, booked, and to be shipped.
use asset_pilot_fastapi.Views.ItemResults.{item_result_from, ItemResult}
use asset_pilot_fastapi.Services.Lookup.{get_item_or_404, get_request_or_404}
use asset_pilot_fastapi.Repositories.Queries.RequestQueries.{
  list_return_shipping_queue, list_outbound_shipping_queue, list_bookings_for_item,
  ShippingQueueRow, BookingRow,
}
use asset_pilot_fastapi.Repositories.Queries.ItemQueries.{
  list_client_available, list_suggested_devices, ClientAvailableRow, SuggestedDeviceRow,
}
use asset_pilot_fastapi.Views.Requests.{result_from, RequestResult}
use asset_pilot_fastapi.Database.{Db}
use asset_pilot_fastapi.Repositories.Queries.{Sql}
use asset_pilot_fastapi.Prelude.{map, String, Option, List, ℕ}
use asset_pilot_fastapi.Result.{Result, ok, ◌>>=◌}

pub record BookingResult : Type 0 where
  pub base : RequestResult
  pub requester_name : String

unfoldable pub booking_result_from : BookingRow → BookingResult
unfolding result_from
booking_result_from row = record {
  base = result_from row.request;
  requester_name = row.requester_name;
}

pub record SuggestedDeviceResult : Type 0 where
  pub base : ItemResult
  pub category_name : String
  pub active_bookings_count : ℕ

unfoldable pub suggested_device_result_from : SuggestedDeviceRow → SuggestedDeviceResult
unfolding item_result_from
suggested_device_result_from row = record {
  base = item_result_from row.item;
  category_name = row.category_name;
  active_bookings_count = row.active_bookings_count;
}

pub record ClientAvailableResult : Type 0 where
  pub base : ItemResult
  pub category_name : String

unfoldable pub client_available_result_from : ClientAvailableRow → ClientAvailableResult
unfolding item_result_from
client_available_result_from row = record {
  base = item_result_from row.item;
  category_name = row.category_name;
}

pub record ShippingQueueResult : Type 0 where
  pub base : RequestResult
  pub item_name : String
  pub requester_name : String

unfoldable pub queue_result_from : ShippingQueueRow → ShippingQueueResult
unfolding result_from
queue_result_from row = record {
  base = result_from row.request;
  item_name = row.item_name;
  requester_name = row.requester_name;
}

unfoldable pub suggested_devices : ℕ → Db → Result (List SuggestedDeviceResult)
unfolding suggested_device_result_from
suggested_devices request_id db = do
  request ← get_request_or_404 request_id db
  ok (
      map suggested_device_result_from
        (list_suggested_devices request.category_id request.requested_from request.requested_to db))

unfoldable pub item_bookings : ℕ → Db → Result (List BookingResult)
unfolding booking_result_from
item_bookings item_id db = do
  item ← get_item_or_404 item_id db
  ok (map booking_result_from (list_bookings_for_item item_id db))

unfoldable pub client_available : Sql → Option ℕ → Option String → Db → List ClientAvailableResult
unfolding client_available_result_from
client_available sql category_id words db =
    map client_available_result_from (list_client_available sql category_id words db)

unfoldable pub list_outbound : Db → List ShippingQueueResult
unfolding queue_result_from
list_outbound db = map queue_result_from (list_outbound_shipping_queue db)

unfoldable pub list_returns : Db → List ShippingQueueResult
unfolding queue_result_from
list_returns db = map queue_result_from (list_return_shipping_queue db)
