-- ===== src/Repositories/Queries/RequestQueries.antt =====
-- app/repositories/request_repository.py: the listings of requests.
use asset_pilot_fastapi.Services.Lookup.{device_is}
use asset_pilot_fastapi.Repositories.Requests.{status_is}
use asset_pilot_fastapi.Database.{item_key, user_key, Db}
use asset_pilot_fastapi.Repositories.Queries.{
  matches_search, at_most, at_least, item_name, order_by, where_is, category_name, find, join,
  user_name, outer, both, column, first, Sql,
}
use asset_pilot_fastapi.Pagination.{list_page, Page, PaginationParams}
use asset_pilot_fastapi.Models.{Item, Request}
use asset_pilot_fastapi.Prelude.{
  true, false, none, some, ◌==◌, is_none, ◌==◌, ◌||◌, filter, same, ◌&&◌, take, ltb, ◌&&◌, is_id,
  List, String, Bool, ℕ, Option,
}
use asset_pilot_fastapi.Enums.{
  DeviceStatus, RequestPriority-discrete, RequestStatus-discrete, RequestStatus, RequestPriority,
}

pub record RequestListRow : Type 0 where
  pub request : Request
  pub category_name : String
  pub requester_name : String

pub record BookingRow : Type 0 where
  pub request : Request
  pub requester_name : String

pub record ShippingQueueRow : Type 0 where
  pub request : Request
  pub item_name : String
  pub requester_name : String

pub record RequestDetailRow : Type 0 where
  pub request : Request
  pub category_name : String
  pub requester_name : String
  pub manager_name : Option String
  pub it_decided_by_name : Option String
  pub cancelled_by_name : Option String
  pub completed_by_name : Option String
  pub item : Option Item

-- The parameters of `list_requests`.
pub record RequestFilter : Type 0 where
  pub status : Option RequestStatus
  pub category_id : Option ℕ
  pub priority : Option RequestPriority
  pub requested_from : Option ℕ
  pub requested_to : Option ℕ
  pub search : Option String

-- The place of a priority in the database's enumeration, by which it is sorted.
abbrev pub priority_rank : RequestPriority → ℕ
priority_rank RequestPriority.low = 0
priority_rank RequestPriority.medium = 1
priority_rank RequestPriority.high = 2

-- ORDER BY created_at DESC, and ASC; by assigned_from with the nulls last.
abbrev pub newest_first : Request → Request → Bool
newest_first r x = ltb r.created_at x.created_at

abbrev pub oldest_first : Request → Request → Bool
oldest_first r x = ltb x.created_at r.created_at

abbrev pub nulls_last : Option ℕ → Option ℕ → Bool
nulls_last none none = false
nulls_last none (some b) = true
nulls_last (some a) none = false
nulls_last (some a) (some b) = ltb b a

abbrev pub by_assigned_from : Request → Request → Bool
by_assigned_from r x = nulls_last r.assigned_from x.assigned_from

-- ORDER BY priority DESC, created_at ASC
abbrev pub urgent_first : Request → Request → Bool
urgent_first r x =
    ltb (priority_rank r.priority) (priority_rank x.priority)
    || (priority_rank r.priority == priority_rank x.priority && oldest_first r x)

unfoldable pub is_active_for : ℕ → Request → Bool
is_active_for item_id r =
    is_id r.assigned_item_id item_id && status_is r.status RequestStatus.assigned

unfoldable pub get_active_for_item : ℕ → Db → Option Request
unfolding is_active_for
get_active_for_item item_id db =
    first (order_by newest_first (filter (is_active_for item_id) db.requests))

-- The joins with the category and the requester.
unfoldable pub request_row : Db → Request → Option RequestListRow
request_row db r =
    both
      (λ category requester. record {
        request = r;
        category_name = category;
        requester_name = requester;
      })
      (category_name db r.category_id) (user_name db r.requester_id)

unfoldable pub booking_row : Db → Request → Option BookingRow
booking_row db r =
    column (λ name. record { request = r; requester_name = name }) (user_name db r.requester_id)

-- The joins with the device and the requester.
unfoldable pub shipping_row : Db → Request → Option ShippingQueueRow
shipping_row db r =
    both (λ item requester. record { request = r; item_name = item; requester_name = requester })
      (outer (item_name db) r.assigned_item_id) (user_name db r.requester_id)

unfoldable pub list_recent : ℕ → Db → List RequestListRow
unfolding request_row
list_recent limit db = take limit (join (request_row db) (order_by newest_first db.requests))

-- The search over the joined requester.
unfoldable pub is_searched : Sql → Option String → Db → Request → Bool
is_searched sql words db r = elim (find user_key r.requester_id db.users) [
  | none ↦ false
  | some requester ↦ matches_search sql words requester.name requester.email
]

unfoldable pub is_selected : Sql → RequestFilter → Db → Request → Bool
unfolding is_searched
is_selected sql f db r =
    where_is (same RequestStatus-discrete) f.status r.status
    && where_is ◌==◌ f.category_id r.category_id
    && where_is (same RequestPriority-discrete) f.priority r.priority
    && at_least f.requested_from r.requested_from
    && at_most f.requested_to r.requested_to
    && is_searched sql f.search db r

unfoldable pub list_requests : Sql → RequestFilter → PaginationParams → Db → Page RequestListRow
unfolding request_row is_selected
list_requests sql f pagination db =
    list_page pagination
      (join (request_row db) (order_by newest_first (filter (is_selected sql f db) db.requests)))

unfoldable pub list_it_approvals : PaginationParams → Db → Page RequestListRow
unfolding request_row
list_it_approvals pagination db = list_page pagination (
    join (request_row db) (
      order_by urgent_first
        (filter (λ r. status_is r.status RequestStatus.pending_it_approval) db.requests)))

unfoldable pub list_bookings_for_item : ℕ → Db → List BookingRow
unfolding booking_row is_active_for
list_bookings_for_item item_id db =
    join (booking_row db) (order_by by_assigned_from (filter (is_active_for item_id) db.requests))

unfoldable pub is_outbound : Request → Bool
is_outbound r = r.is_wfh && status_is r.status RequestStatus.assigned && is_none r.ship_initiated_at

unfoldable pub list_outbound_shipping_queue : Db → List ShippingQueueRow
unfolding shipping_row is_outbound
list_outbound_shipping_queue db =
    join (shipping_row db) (order_by oldest_first (filter is_outbound db.requests))

-- A condition on the joined device.
unfoldable pub is_returning : Db → Request → Bool
is_returning db r = elim (outer (λ k. find item_key k db.items) r.assigned_item_id) [
  | none ↦ false
  | some item ↦ device_is item.status DeviceStatus.return_shipping_pending
]

unfoldable pub list_return_shipping_queue : Db → List ShippingQueueRow
unfolding shipping_row is_returning
list_return_shipping_queue db =
    join (shipping_row db) (order_by oldest_first (filter (is_returning db) db.requests))

unfoldable pub detail_row : Db → Request → Option RequestDetailRow
detail_row db r =
    both
      (λ category requester. record {
        request = r;
        category_name = category;
        requester_name = requester;
        manager_name = outer (user_name db) r.manager_id;
        it_decided_by_name = outer (user_name db) r.it_decided_by;
        cancelled_by_name = outer (user_name db) r.cancelled_by;
        completed_by_name = outer (user_name db) r.completed_by;
        item = outer (λ k. find item_key k db.items) r.assigned_item_id;
      })
      (category_name db r.category_id) (user_name db r.requester_id)

unfoldable pub get_detail : ℕ → Db → Option RequestDetailRow
unfolding detail_row
get_detail request_id db =
    first (join (detail_row db) (filter (λ r. r.id == request_id) db.requests))
