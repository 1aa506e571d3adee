-- ===== src/Repositories/Queries/PeopleQueries.antt =====
-- app/repositories/user_repository.py, item_category_repository.py and device_log_repository.py:
-- the listings of users, categories and log entries.
use asset_pilot_fastapi.Pagination.{offset, list_page, limit, Page, PaginationParams}
use asset_pilot_fastapi.Enums.{UserRole-discrete, UserRole}
use asset_pilot_fastapi.Repositories.Queries.{
  matches_search, bool_eq, where_is, order_by, user_name, outer, Sql,
}
use asset_pilot_fastapi.Models.{ItemCategory, User, DeviceLog}
use asset_pilot_fastapi.Database.{Db}
use asset_pilot_fastapi.Prelude.{
  ◌||◌, not, ◌&&◌, ◌&&◌, ◌==◌, drop, ◌==◌, filter, same, take, ltb, map, String, List, Bool, Option,
  ℕ, none, some,
}

pub record UserListRow : Type 0 where
  pub user : User
  pub manager_name : Option String

pub record DeviceLogRow : Type 0 where
  pub device_log : DeviceLog
  pub actor_name : Option String

abbrev pub by_user_name : Sql → User → User → Bool
by_user_name sql u v = sql.sorts_after u.name v.name

unfoldable pub list_active_by_role : Sql → UserRole → Db → List User
list_active_by_role sql role db =
    order_by (by_user_name sql)
      (filter (λ (u : User). same UserRole-discrete u.role role && u.is_active) db.users)

abbrev pub newest_user_first : User → User → Bool
newest_user_first u v = ltb u.created_at v.created_at

unfoldable pub user_row : Db → User → UserListRow
user_row db u = record { user = u; manager_name = outer (user_name db) u.manager_id }

unfoldable pub is_chosen : Sql → Option UserRole → Option Bool → Option String → User → Bool
is_chosen sql role is_active words u =
    where_is (same UserRole-discrete) role u.role
    && where_is bool_eq is_active u.is_active
    && matches_search sql words u.name u.email

unfoldable pub list_user_rows :
    Sql → Option UserRole → Option Bool → Option String → PaginationParams → Db → Page UserListRow
unfolding user_row is_chosen
list_user_rows sql role is_active words pagination db = list_page pagination (
    map (user_row db)
      (order_by newest_user_first (filter (is_chosen sql role is_active words) db.users)))

abbrev pub by_category_name : Sql → ItemCategory → ItemCategory → Bool
by_category_name sql c d = sql.sorts_after c.name d.name

unfoldable pub list_active : Sql → Db → List ItemCategory
list_active sql db =
    order_by (by_category_name sql) (filter (λ (c : ItemCategory). c.is_active) db.categories)

abbrev pub occurred_later : DeviceLog → DeviceLog → Bool
occurred_later l m = ltb m.occurred_at l.occurred_at

unfoldable pub log_entry_row : Db → DeviceLog → DeviceLogRow
log_entry_row db l = record { device_log = l; actor_name = outer (user_name db) l.actor_id }

-- OFFSET and LIMIT, where there is a page.
unfoldable pub paged {ℓ} : {A : Type ℓ} → Option PaginationParams → List A → List A
paged none xs = xs
paged (some p) xs = take (limit p) (drop (offset p) xs)

unfoldable pub list_for_item : ℕ → Bool → Option PaginationParams → Db → List DeviceLogRow
unfolding log_entry_row
list_for_item item_id milestones_only pagination db = paged pagination (
    map (log_entry_row db) (
      order_by occurred_later (
        filter (λ (l : DeviceLog). l.item_id == item_id && (not milestones_only || l.is_milestone))
          db.device_logs)))
