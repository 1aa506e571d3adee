-- ===== src/Services/Inventory.antt =====
-- app/services/inventory_service.py: creating and editing a device and changing its status.
use asset_pilot_fastapi.Prelude.{
  formatted, ℕ, String, ◌==◌, str_eq, Bool, true, false, Option, none, some, List, [], ◌∷◌, ◌++◌,
  any, length, if◌then◌else◌,
}
use asset_pilot_fastapi.Result.{Result, ok, ◌>>=◌, ◌>>◌, raise_if, or_raise, conflict, not_found}
use asset_pilot_fastapi.Enums.{DeviceStatus, OwnerType, DeviceLogEvent, ActorRole, status_value}
use asset_pilot_fastapi.Models.{
  Item, FieldChange, name_change, category_id_change, client_name_change, purchase_date_change,
  changes,
}
use asset_pilot_fastapi.Database.{Db, Env}
use asset_pilot_fastapi.Repositories.{get_category, insert_item, update_item}
use asset_pilot_fastapi.Services.DeviceLog.{append, log_args}
use asset_pilot_fastapi.Services.Lookup.{get_item_or_404}

-- `item_repository.get_by_serial_no(serial_no) is not None`
unfoldable pub has_serial_no : String → Db → Bool
has_serial_no serial_no db = any (λ (i : Item). str_eq i.serial_no serial_no) db.items

-- `client_name if owner_type == OwnerType.CLIENT else None`
abbrev pub kept_client_name : OwnerType → Option String → Option String
kept_client_name OwnerType.client client_name = client_name
kept_client_name OwnerType.company client_name = none

unfoldable pub new_item :
    Env → String → String → ℕ → OwnerType → Option String → Option ℕ → Db → Item
new_item env name serial_no category_id owner_type client_name purchase_date db = record {
  id = env.new_id (length db.items);
  name = name;
  serial_no = serial_no;
  category_id = category_id;
  owner_type = owner_type;
  client_name = kept_client_name owner_type client_name;
  status = DeviceStatus.available;
  current_owner_id = none;
  purchase_date = purchase_date;
  qr_code_token = env.new_qr_code_token (length db.items);
  created_at = env.transaction_time;
  updated_at = env.transaction_time;
}

unfoldable pub create_item :
    Env → String → String → ℕ → OwnerType → Option String → Option ℕ → ℕ → Db → Result (Item × Db)
create_item env name serial_no category_id owner_type client_name purchase_date actor_id db = do
  category ← or_raise (get_category category_id db) (not_found "Item category not found.")
  raise_if (has_serial_no serial_no db)
      (conflict (formatted "An item with serial number '" serial_no "' already exists."))
  (created, db1) ←
      insert_item (new_item env name serial_no category_id owner_type client_name purchase_date db)
        db
  (entry, db2) ←
      append env
        (record (log_args created.id DeviceLogEvent.device_created (some actor_id)
          ActorRole.it_admin) { to_value = some (status_value DeviceStatus.available) })
        db1
  ok (created, db2)

-- The fields that a PATCH sets; `none` for a field that is not in the body. The DTO refuses a null
-- name or category.
pub record Updates : Type 0 where
  pub name : Option String
  pub category_id : Option ℕ
  pub client_name : Option (Option String)
  pub purchase_date : Option (Option ℕ)

abbrev pub same_text : Option String → Option String → Bool
same_text none none = true
same_text (some s) (some t) = str_eq s t
same_text _ _ = false

abbrev pub same_day : Option ℕ → Option ℕ → Bool
same_day none none = true
same_day (some s) (some t) = s == t
same_day _ _ = false

-- One round of the loop over `_EDITABLE_FIELDS` for each field: the item and the changes after it.
unfoldable pub edit_name : Option String → Item × List FieldChange → Item × List FieldChange
edit_name none (item, done) = (item, done)
edit_name (some new) (item, done) =
    if str_eq new item.name
    then (item, done)
    else (record item { name = new }, done ++ name_change item.name new ∷ [])

unfoldable pub edit_category_id : Option ℕ → Item × List FieldChange → Item × List FieldChange
edit_category_id none (item, done) = (item, done)
edit_category_id (some new) (item, done) =
    if new == item.category_id
    then (item, done)
    else (record item { category_id = new }, done ++ category_id_change item.category_id new ∷ [])

unfoldable pub edit_client_name :
    Option (Option String) → Item × List FieldChange → Item × List FieldChange
edit_client_name none (item, done) = (item, done)
edit_client_name (some new) (item, done) =
    if same_text new item.client_name
    then (item, done)
    else (record item { client_name = new }, done ++ client_name_change item.client_name new ∷ [])

unfoldable pub edit_purchase_date :
    Option (Option ℕ) → Item × List FieldChange → Item × List FieldChange
edit_purchase_date none (item, done) = (item, done)
edit_purchase_date (some new) (item, done) =
    if same_day new item.purchase_date then (item, done) else (
      record item { purchase_date = new },
      done ++ purchase_date_change item.purchase_date new ∷ [],
    )

unfoldable pub apply_updates : Updates → Item → Item × List FieldChange
unfolding edit_name edit_category_id edit_client_name edit_purchase_date
apply_updates u item =
    edit_purchase_date u.purchase_date (
      edit_client_name u.client_name (edit_category_id u.category_id (edit_name u.name (item, []))))

-- The new category, where one is given, exists.
unfoldable pub check_category : Option ℕ → Db → Result (Unit {0})
check_category none db = ok tt
check_category (some k) db = do
  category ← or_raise (get_category k db) (not_found "Item category not found.")
  ok tt

-- The log entry of an edit, written only if something changed.
unfoldable pub log_edit : Env → ℕ → List FieldChange → ℕ → Db → Result (Unit {0} × Db)
log_edit env item_id [] actor_id db = ok (tt, db)
log_edit env item_id (c ∷ cs) actor_id db = do
  (entry, db1) ←
      append env
        (record (log_args item_id DeviceLogEvent.device_edited (some actor_id) ActorRole.it_admin) {
          metadata = some (("changes", changes (c ∷ cs)) ∷ []);
        })
        db
  ok (tt, db1)

unfoldable pub edit_item : Env → ℕ → Updates → ℕ → Db → Result (Item × Db)
unfolding get_item_or_404
edit_item env item_id u actor_id db = do
  item ← get_item_or_404 item_id db
  checked ← check_category u.category_id db
  (updated, db1) ← update_item env (apply_updates u item).0 db
  (logged, db2) ← log_edit env updated.id (apply_updates u item).1 actor_id db1
  ok (updated, db2)

-- `_STATUS_EVENT_MAP.get(status, DeviceLogEvent.STATUS_CHANGED)`
unfoldable pub status_event : DeviceStatus → DeviceLogEvent
status_event DeviceStatus.lost = DeviceLogEvent.marked_lost
status_event DeviceStatus.retired = DeviceLogEvent.retired
status_event DeviceStatus.returned_to_client = DeviceLogEvent.returned_to_client
status_event _ = DeviceLogEvent.status_changed

unfoldable pub change_status : Env → ℕ → DeviceStatus → Option String → ℕ → Db → Result (Item × Db)
unfolding get_item_or_404
change_status env item_id status it_note actor_id db = do
  item ← get_item_or_404 item_id db
  (updated, db1) ← update_item env (record item { status = status }) db
  (entry, db2) ←
      append env
        (record (log_args updated.id (status_event status) (some actor_id) ActorRole.it_admin) {
          from_value = some (status_value item.status);
          to_value = some (status_value status);
          note = it_note;
        })
        db1
  ok (updated, db2)
