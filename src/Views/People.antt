-- ===== src/Views/People.antt =====
-- app/services/user_service.py, dropdown_service.py and device_log_service.py: the listings of users and
-- categories, and the timeline of a device.
use asset_pilot_fastapi.Pagination.{Page, PaginationParams}
use asset_pilot_fastapi.Database.{Db}
use asset_pilot_fastapi.Enums.{ActorRole, UserRole, DeviceLogEvent}
use asset_pilot_fastapi.Views.{page_of}
use asset_pilot_fastapi.Models.{MetadataValue, DeviceLog, User, ItemCategory}
use asset_pilot_fastapi.Repositories.Queries.{Sql}
use asset_pilot_fastapi.Repositories.Queries.PeopleQueries.{
  list_for_item, list_active, list_active_by_role, list_user_rows, DeviceLogRow, UserListRow,
}
use asset_pilot_fastapi.Prelude.{map, List, Bool, String, ℕ, Option, none}

pub record UserResult : Type 0 where
  pub id : ℕ
  pub name : String
  pub email : String
  pub role : UserRole
  pub manager_id : Option ℕ
  pub is_active : Bool
  pub created_at : ℕ
  pub updated_at : ℕ

unfoldable pub user_result_from : User → UserResult
user_result_from user = record {
  id = user.id;
  name = user.name;
  email = user.email;
  role = user.role;
  manager_id = user.manager_id;
  is_active = user.is_active;
  created_at = user.created_at;
  updated_at = user.updated_at;
}

pub record UserListEntry : Type 0 where
  pub base : UserResult
  pub manager_name : Option String

unfoldable pub user_list_entry_from : UserListRow → UserListEntry
unfolding user_result_from
user_list_entry_from row = record {
  base = user_result_from row.user;
  manager_name = row.manager_name;
}

pub record CategoryOption : Type 0 where
  pub id : ℕ
  pub name : String
  pub description : Option String
  pub requires_mgr_approval : Bool
  pub is_active : Bool

unfoldable pub category_option_from : ItemCategory → CategoryOption
category_option_from category = record {
  id = category.id;
  name = category.name;
  description = category.description;
  requires_mgr_approval = category.requires_mgr_approval;
  is_active = category.is_active;
}

pub record UserOption : Type 0 where
  pub id : ℕ
  pub name : String
  pub email : String
  pub role : UserRole
  pub manager_id : Option ℕ
  pub is_active : Bool

unfoldable pub user_option_from : User → UserOption
user_option_from user = record {
  id = user.id;
  name = user.name;
  email = user.email;
  role = user.role;
  manager_id = user.manager_id;
  is_active = user.is_active;
}

pub record DeviceLogEntry : Type 0 where
  pub id : ℕ
  pub item_id : ℕ
  pub event_type : DeviceLogEvent
  pub actor_id : Option ℕ
  pub actor_name : Option String
  pub actor_role : ActorRole
  pub request_id : Option ℕ
  pub support_request_id : Option ℕ
  pub extension_request_id : Option ℕ
  pub handover_request_id : Option ℕ
  pub from_value : Option String
  pub to_value : Option String
  pub note : Option String
  pub metadata : List (String × MetadataValue)
  pub is_milestone : Bool
  pub occurred_at : ℕ

unfoldable pub entry_from : Option String → DeviceLog → DeviceLogEntry
entry_from actor_name log = record {
  id = log.id;
  item_id = log.item_id;
  event_type = log.event_type;
  actor_id = log.actor_id;
  actor_name = actor_name;
  actor_role = log.actor_role;
  request_id = log.request_id;
  support_request_id = log.support_request_id;
  extension_request_id = log.extension_request_id;
  handover_request_id = log.handover_request_id;
  from_value = log.from_value;
  to_value = log.to_value;
  note = log.note;
  metadata = log.log_metadata;
  is_milestone = log.is_milestone;
  occurred_at = log.occurred_at;
}

unfoldable pub list_users :
    Sql → Option UserRole → Option Bool → Option String → PaginationParams → Db → Page UserListEntry
unfolding user_list_entry_from page_of
list_users sql role is_active words pagination db =
    page_of user_list_entry_from (list_user_rows sql role is_active words pagination db)

unfoldable pub list_item_categories : Sql → Db → List CategoryOption
unfolding category_option_from
list_item_categories sql db = map category_option_from (list_active sql db)

unfoldable pub list_managers : Sql → Db → List UserOption
unfolding user_option_from
list_managers sql db = map user_option_from (list_active_by_role sql UserRole.manager db)

unfoldable pub list_employees : Sql → Db → List UserOption
unfolding user_option_from
list_employees sql db = map user_option_from (list_active_by_role sql UserRole.employee db)

unfoldable pub get_timeline : ℕ → Bool → Db → List DeviceLogEntry
unfolding entry_from
get_timeline item_id milestones_only db =
    map (λ (row : DeviceLogRow). entry_from row.actor_name row.device_log)
      (list_for_item item_id milestones_only none db)
