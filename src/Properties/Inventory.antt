-- ===== src/Properties/Inventory.antt =====
-- Edits and status changes of devices: app/services/inventory_service.py.
use asset_pilot_fastapi.Table.Laws.{find-replace_found, find-key}
use asset_pilot_fastapi.Repositories.Laws.{update_item-ok}
use asset_pilot_fastapi.Outcomes.Writes.{append-Logged}
use asset_pilot_fastapi.Result.Ensures.{
  returns, then-Ensures, bind-Ensures, or_raise-Ensures, Ensures, of_Ensures,
}
use asset_pilot_fastapi.Prelude.{none, refl, str_eq_iff, ==_refl, ◌∙◌, true, ◌∙◌, arith, List, []}
use asset_pilot_fastapi.Table.{replace}
use asset_pilot_fastapi.Result.{ok}
use asset_pilot_fastapi.Models.{FieldChange, DeviceLog, Item}
use asset_pilot_fastapi.Enums.{ActorRole, status_value, DeviceStatus}
use asset_pilot_fastapi.Database.{item_key, Db, Env}
use asset_pilot_fastapi.Services.Lookup.{get_item_or_404}
use asset_pilot_fastapi.Services.DeviceLog.{log_args, log_row}
use asset_pilot_fastapi.Repositories.{get_item}
use asset_pilot_fastapi.Services.Inventory.{
  same_text, same_day, status_event, Updates, edit_purchase_date, edit_client_name,
  edit_category_id, edit_name, change_status, apply_updates,
}
use asset_pilot_fastapi.Prelude.{◌∷◌, ◌∷◌, ◌++◌, ◌++◌, some, [], ◌≡◌, ◌≡◌, String, Option, ℕ}

same_text_refl : (o : Option String) → same_text o o ≡ true
same_text_refl none = refl
same_text_refl (some s) = (str_eq_iff s s).1 refl

same_day_refl : (o : Option ℕ) → same_day o o ≡ true
same_day_refl none = refl
same_day_refl (some k) = ==_refl k

-- Each field of an item after the edits: the new value if one is given, up to equality.
edit_name-settled :
    (o : Option String) (p : Item × List FieldChange) (x : Item)
    → x.name ≡ (edit_name o p).0.name
    → edit_name o (x, []) ≡ (x, [])
unfolding edit_name
edit_name-settled none p x e = refl
edit_name-settled (some new) p x e =
    ground
      (arith, (str_eq_iff new new).1 refl, (str_eq_iff new x.name).1, (str_eq_iff new p.0.name).0)

edit_category_id-settled :
    (o : Option ℕ) (p : Item × List FieldChange) (x : Item)
    → x.category_id ≡ (edit_category_id o p).0.category_id
    → edit_category_id o (x, []) ≡ (x, [])
unfolding edit_category_id
edit_category_id-settled none p x e = refl
edit_category_id-settled (some new) p x e = ground arith

edit_client_name-settled :
    (o : Option (Option String)) (p : Item × List FieldChange) (x : Item)
    → x.client_name ≡ (edit_client_name o p).0.client_name
    → edit_client_name o (x, []) ≡ (x, [])
unfolding edit_client_name
edit_client_name-settled none p x e = refl
edit_client_name-settled (some new) p x e = ground (arith, same_text_refl new)

edit_purchase_date-settled :
    (o : Option (Option ℕ)) (p : Item × List FieldChange) (x : Item)
    → x.purchase_date ≡ (edit_purchase_date o p).0.purchase_date
    → edit_purchase_date o (x, []) ≡ (x, [])
unfolding edit_purchase_date
edit_purchase_date-settled none p x e = refl
edit_purchase_date-settled (some new) p x e = ground (arith, same_day_refl new)

edit_category_id-keeps :
    (o : Option ℕ) (p : Item × List FieldChange) → (edit_category_id o p).0.name ≡ p.0.name
unfolding edit_category_id
edit_category_id-keeps none p = refl
edit_category_id-keeps (some new) p = ground arith

edit_client_name-keeps :
    (o : Option (Option String)) (p : Item × List FieldChange)
    → ((edit_client_name o p).0.name ≡ p.0.name)
      × ((edit_client_name o p).0.category_id ≡ p.0.category_id)
unfolding edit_client_name
edit_client_name-keeps none p = (refl, refl)
edit_client_name-keeps (some new) p = (ground arith, ground arith)

edit_purchase_date-keeps :
    (o : Option (Option ℕ)) (p : Item × List FieldChange)
    → ((edit_purchase_date o p).0.name ≡ p.0.name)
      × ((edit_purchase_date o p).0.category_id ≡ p.0.category_id)
      × ((edit_purchase_date o p).0.client_name ≡ p.0.client_name)
unfolding edit_purchase_date
edit_purchase_date-keeps none p = (refl, refl, refl)
edit_purchase_date-keeps (some new) p = (ground arith, ground arith, ground arith)

-- An update that has been applied once changes nothing when it is applied again, and lists no changes, for every device and every choice of fields.
pub apply_updates_again :
    (u : Updates) (item : Item)
    → apply_updates u (apply_updates u item).0 ≡ ((apply_updates u item).0, [])
unfolding apply_updates
apply_updates_again u item =
    let p1 = edit_name u.name (item, []) in
    let p2 = edit_category_id u.category_id p1 in
    let p3 = edit_client_name u.client_name p2 in
    let p4 = edit_purchase_date u.purchase_date p3 in
    let date_keeps = edit_purchase_date-keeps u.purchase_date p3 in
    let client_keeps = edit_client_name-keeps u.client_name p2 in
    let category_keeps = edit_category_id-keeps u.category_id p1 in
    ground (
      arith,
      edit_name-settled u.name (item, []) p4.0 (date_keeps.0 ∙ client_keeps.0 ∙ category_keeps),
      edit_category_id-settled u.category_id p1 p4.0 (date_keeps.1 ∙ client_keeps.1),
      edit_client_name-settled u.client_name p2 p4.0 date_keeps.2,
      edit_purchase_date-settled u.purchase_date p3 p4.0 refl,
    )

change_status-ok :
    (env : Env) (item_id : ℕ) (status : DeviceStatus) (it_note : Option String) (actor_id : ℕ)
    (db : Db)
    → Ensures
        (λ p.
          (item : Item) × (entry : DeviceLog) × (get_item item_id db ≡ some item)
          × (get_item item_id p.1 ≡ some p.0)
          × (p.0 ≡ record item { status = status; updated_at = p.0.updated_at })
          × (p.1 ≡ record db {
            items = replace item_key p.0 db.items;
            device_logs = db.device_logs ++ entry ∷ [];
          })
          × (entry.item_id ≡ item_id)
          × (entry.event_type ≡ status_event status)
          × (entry.from_value ≡ some (status_value item.status))
          × (entry.to_value ≡ some (status_value status))
          × (entry.note ≡ it_note))
        (change_status env item_id status it_note actor_id db)
unfolding change_status get_item log_row get_item_or_404
change_status-ok env item_id status it_note actor_id db = or_raise-Ensures _ _ _ λ item found.
    bind-Ensures _ _ λ p wrote. then-Ensures _ _ (append-Logged env _ p.1) λ q logged.
      let (stamped, database, unique) = update_item-ok env _ db {row = p.0} {db' = p.1} wrote in
      let key = find-key item_key item_id db.items {x = item} found in
      returns (
        item,
        log_row env
            (record (log_args p.0.id (status_event status) (some actor_id) ActorRole.it_admin) {
              from_value = some (status_value item.status);
              to_value = some (status_value status);
              note = it_note;
            })
            p.1,
        found,
        ground (arith, logged, find-replace_found item_key p.0 item_id db.items found),
        stamped,
        ground (arith, logged),
        ground (arith, key),
        refl,
        refl,
        refl,
        refl,
      )

-- If `change_status` returns, the device is stored with the new status and is otherwise as before but for `updated_at`, its owner included; no other table changes but the log, which has one entry more, with the event of the status and both values.
pub change_status-stored :
    (env : Env) (item_id : ℕ) (status : DeviceStatus) (it_note : Option String) (actor_id : ℕ)
    (db db' : Db) (result : Item)
    → change_status env item_id status it_note actor_id db ≡ ok (result, db')
    → (item : Item) × (entry : DeviceLog) × (get_item item_id db ≡ some item)
      × (get_item item_id db' ≡ some result)
      × (result ≡ record item { status = status; updated_at = result.updated_at })
      × (db' ≡ record db {
        items = replace item_key result db.items;
        device_logs = db.device_logs ++ entry ∷ [];
      })
      × (entry.item_id ≡ item_id)
      × (entry.event_type ≡ status_event status)
      × (entry.from_value ≡ some (status_value item.status))
      × (entry.to_value ≡ some (status_value status))
      × (entry.note ≡ it_note)
unfolding get_item
change_status-stored env item_id status it_note actor_id db db' result h =
    of_Ensures (change_status-ok env item_id status it_note actor_id db) (result, db') h
