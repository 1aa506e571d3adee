-- ===== src/Repositories/Queries/ItemQueries.antt =====
-- app/repositories/item_repository.py: the listings of devices.
use asset_pilot_fastapi.Services.Lookup.{device_is}
use asset_pilot_fastapi.Repositories.Requests.{has_overlapping_assigned_booking}
use asset_pilot_fastapi.Pagination.{list_page, Page, PaginationParams}
use asset_pilot_fastapi.Enums.{OwnerType-discrete, OwnerType, DeviceStatus}
use asset_pilot_fastapi.Models.{Item}
use asset_pilot_fastapi.Repositories.Queries.{
  matches_search, user_name, join, category_name, outer, order_by, where_is, column, Sql,
}
use asset_pilot_fastapi.Repositories.Queries.RequestQueries.{is_active_for}
use asset_pilot_fastapi.Database.{Db}
use asset_pilot_fastapi.Prelude.{
  not, if◌then◌else◌, ◌||◌, ◌&&◌, same, ◌&&◌, filter, ◌==◌, ltb, String, length, List, ◌==◌, Option,
  ℕ, Bool, none, some,
}

pub record ItemListRow : Type 0 where
  pub item : Item
  pub category_name : String
  pub current_owner_name : Option String

pub record SuggestedDeviceRow : Type 0 where
  pub item : Item
  pub category_name : String
  pub active_bookings_count : ℕ

pub record ClientAvailableRow : Type 0 where
  pub item : Item
  pub category_name : String

pub record ItemFilter : Type 0 where
  pub category_id : Option ℕ
  pub status : Option DeviceStatus
  pub owner_type : Option OwnerType
  pub search : Option String

-- GROUP BY status: a status that no device has is not a key.
unfoldable pub count_by_status : Db → DeviceStatus → Option ℕ
count_by_status db status =
    let count = length (filter (λ (i : Item). device_is i.status status) db.items) in
    if count == 0 then none else some count

abbrev pub newest_item_first : Item → Item → Bool
newest_item_first i j = ltb i.created_at j.created_at

unfoldable pub item_row : Db → Item → Option ItemListRow
item_row db i =
    column
      (λ category. record {
        item = i;
        category_name = category;
        current_owner_name = outer (user_name db) i.current_owner_id;
      })
      (category_name db i.category_id)

unfoldable pub is_listed : Sql → ItemFilter → Item → Bool
is_listed sql f i =
    where_is ◌==◌ f.category_id i.category_id
    && where_is device_is f.status i.status
    && where_is (same OwnerType-discrete) f.owner_type i.owner_type
    && matches_search sql f.search i.name i.serial_no

unfoldable pub list_items : Sql → ItemFilter → PaginationParams → Db → Page ItemListRow
unfolding item_row is_listed
list_items sql f pagination db =
    list_page pagination
      (join (item_row db) (order_by newest_item_first (filter (is_listed sql f) db.items)))

-- The two subqueries on the requests that are assigned a device.
unfoldable pub active_bookings_count : Db → Item → ℕ
unfolding is_active_for
active_bookings_count db i = length (filter (is_active_for i.id) db.requests)

unfoldable pub overlap_exists : ℕ → ℕ → Db → Item → Bool
overlap_exists requested_from requested_to db i =
    has_overlapping_assigned_booking i.id requested_from requested_to none db

-- ORDER BY active_bookings_count ASC, updated_at ASC
abbrev pub busier : SuggestedDeviceRow → SuggestedDeviceRow → Bool
busier a b =
    ltb b.active_bookings_count a.active_bookings_count
    || (a.active_bookings_count == b.active_bookings_count
        && ltb b.item.updated_at a.item.updated_at)

unfoldable pub suggested_row : Db → Item → Option SuggestedDeviceRow
suggested_row db i =
    column
      (λ category. record {
        item = i;
        category_name = category;
        active_bookings_count = active_bookings_count db i;
      })
      (category_name db i.category_id)

unfoldable pub is_suggested : ℕ → ℕ → ℕ → Db → Item → Bool
unfolding overlap_exists
is_suggested category_id requested_from requested_to db i =
    i.category_id == category_id
    && device_is i.status DeviceStatus.available
    && not (overlap_exists requested_from requested_to db i)

unfoldable pub list_suggested_devices : ℕ → ℕ → ℕ → Db → List SuggestedDeviceRow
unfolding suggested_row is_suggested
list_suggested_devices category_id requested_from requested_to db = order_by busier (
    join (suggested_row db)
      (filter (is_suggested category_id requested_from requested_to db) db.items))

-- ORDER BY name, in the database's collation.
abbrev pub by_item_name : Sql → Item → Item → Bool
by_item_name sql i j = sql.sorts_after i.name j.name

unfoldable pub is_client_available : Sql → Option ℕ → Option String → Item → Bool
is_client_available sql category_id words i =
    same OwnerType-discrete i.owner_type OwnerType.client
    && device_is i.status DeviceStatus.available
    && where_is ◌==◌ category_id i.category_id
    && matches_search sql words i.name i.serial_no

unfoldable pub client_available_row : Db → Item → Option ClientAvailableRow
client_available_row db i =
    column (λ category. record { item = i; category_name = category })
      (category_name db i.category_id)

unfoldable pub list_client_available : Sql → Option ℕ → Option String → Db → List ClientAvailableRow
unfolding is_client_available client_available_row
list_client_available sql category_id words db =
    join (client_available_row db)
      (order_by (by_item_name sql) (filter (is_client_available sql category_id words) db.items))
