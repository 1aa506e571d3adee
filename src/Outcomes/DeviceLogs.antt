-- ===== src/Outcomes/DeviceLogs.antt =====
-- The log after each operation on tickets, devices and users.
use asset_pilot_fastapi.Outcomes.Swap.{swap-Swapped}
use mathlib.Core.List.{append_assoc}
use asset_pilot_fastapi.Repositories.Laws.{insert_item-ok, insert_user-ok}
use asset_pilot_fastapi.Outcomes.Support.{
  mark_lost-MarkedLost, repair_in_place-Repaired, start_repair-SentToRepair,
}
use asset_pilot_fastapi.Repositories.{insert_item}
use asset_pilot_fastapi.Outcomes.Logs.{
  append-Grown, Grown-trans, update_support_request-Grown, update_user-Grown, Grown-refl,
  update_item-Grown, Grown,
}
use asset_pilot_fastapi.Result.{◌>>=◌, ◌>>=◌, Result}
use asset_pilot_fastapi.Models.{FieldChange, SupportRequest, Item}
use asset_pilot_fastapi.Result.Ensures.{
  then-Ensures, bind-Ensures, all_Ensures, map-Ensures, or_raise-Ensures, returns, raise_if-Ensures,
  Ensures,
}
use asset_pilot_fastapi.Services.Inventory.{
  Updates, edit_item, create_item, log_edit, change_status,
}
use asset_pilot_fastapi.Enums.{OwnerType, UserRole, DeviceStatus, SupportType, SupportResolution}
use asset_pilot_fastapi.Services.Users.{activate, deactivate, create_user, change_role}
use asset_pilot_fastapi.Database.{Db, Env}
use asset_pilot_fastapi.Services.Support.{resolve_device, start_by_type, start, resolve}
use asset_pilot_fastapi.Prelude.{
  ◌∙◌, ◌∙◌, ap, [], [], refl, ◌∷◌, ◌∷◌, arith, List, String, Option, ℕ,
}

-- What follows a part that only adds to the log may add more.
then-Grown :
    {A B : Type 0} (db : Db) (m : Result (A × Db)) (f : A × Db → Result (B × Db))
    → Ensures (λ p. Grown db p.1) m
    → ((p : A × Db) → Ensures (λ q. Grown p.1 q.1) (f p))
    → Ensures (λ q. Grown db q.1) (m >>= f)
then-Grown db m f h k =
    then-Ensures m f h λ p g. map-Ensures (f p) (k p) λ q g'. Grown-trans db p.1 q.1 g g'

module _ (env : Env) (db : Db) where
  start_by_type-Grown :
      (type : SupportType) (ticket : SupportRequest) (a : ℕ)
      → Ensures (λ p. Grown db p.1) (start_by_type env type ticket a db)
  unfolding start_by_type
  start_by_type-Grown SupportType.damage ticket a =
      map-Ensures _ (start_repair-SentToRepair env ticket a db)
        λ p o. (_ ∷ [], ap (λ (d : Db). d.device_logs) o.changed.database)
  start_by_type-Grown SupportType.update ticket a = returns (Grown-refl db db refl)
  start_by_type-Grown SupportType.lost ticket a = returns (Grown-refl db db refl)

  resolve_device-Grown :
      (resolution : SupportResolution) (ticket : SupportRequest) (item : Item) (to : Option ℕ)
      (next : Option DeviceStatus) (a : ℕ)
      → Ensures (λ p. Grown db p.1) (resolve_device env resolution ticket item to next a db)
  unfolding resolve_device
  resolve_device-Grown SupportResolution.remote_resolved ticket item to next a =
      returns (Grown-refl db db refl)
  resolve_device-Grown SupportResolution.repaired_in_place ticket item to next a =
      map-Ensures _ (repair_in_place-Repaired env ticket item a db)
        λ p o. (_ ∷ [], ap (λ (d : Db). d.device_logs) o.changed.database)
  resolve_device-Grown SupportResolution.swapped ticket item to next a =
      or_raise-Ensures _ _ _ λ k e. or_raise-Ensures _ _ _ λ status e'.
        map-Ensures _ (swap-Swapped env ticket item k status a db) λ p o.
          (_ ∷ o.swapped_in ∷ [], o.logs ∙ append_assoc db.device_logs (_ ∷ []) (o.swapped_in ∷ []))
  resolve_device-Grown SupportResolution.marked_lost ticket item to next a =
      map-Ensures _ (mark_lost-MarkedLost env ticket item a db)
        λ p o. (_ ∷ [], ap (λ (d : Db). d.device_logs) o.database)

  log_edit-Grown :
      (item_id : ℕ) (cs : List FieldChange) (a : ℕ)
      → Ensures (λ p. Grown db p.1) (log_edit env item_id cs a db)
  unfolding log_edit
  log_edit-Grown item_id [] a = returns (Grown-refl db db refl)
  log_edit-Grown item_id (c ∷ cs) a =
      then-Grown db _ _ (append-Grown env _ db) λ p. returns (Grown-refl p.1 p.1 refl)

module _ (env : Env) (db : Db) where
  pub start-Grown : (s a : ℕ) → Ensures (λ p. Grown db p.1) (start env s a db)
  unfolding start
  start-Grown s a = or_raise-Ensures _ _ _ λ ticket found. raise_if-Ensures _ _ _ λ is_open.
      then-Grown db _ _ (update_support_request-Grown env db _) λ p.
        then-Grown p.1 _ _ (start_by_type-Grown env p.1 _ _ a)
          λ q. returns (Grown-refl q.1 q.1 refl)

  pub resolve-Grown :
      (s : ℕ) (resolution : SupportResolution) (it_note : Option String) (to : Option ℕ)
      (next : Option DeviceStatus) (a : ℕ)
      → Ensures (λ p. Grown db p.1) (resolve env s resolution it_note to next a db)
  unfolding resolve
  resolve-Grown s resolution it_note to next a = or_raise-Ensures _ _ _ λ ticket found.
      raise_if-Ensures _ _ _ λ is_open. or_raise-Ensures _ _ _ λ item item_found.
        then-Grown db _ _ (resolve_device-Grown env db resolution ticket item to next a) λ p.
          then-Grown p.1 _ _ (update_support_request-Grown env p.1 _)
            λ q. then-Grown q.1 _ _ (append-Grown env _ q.1) λ u. returns (Grown-refl u.1 u.1 refl)

  pub change_status-Grown :
      (i : ℕ) (status : DeviceStatus) (it_note : Option String) (a : ℕ)
      → Ensures (λ p. Grown db p.1) (change_status env i status it_note a db)
  unfolding change_status
  change_status-Grown i status it_note a = or_raise-Ensures _ _ _ λ item found.
      then-Grown db _ _ (update_item-Grown env db _)
        λ p. then-Grown p.1 _ _ (append-Grown env _ p.1) λ q. returns (Grown-refl q.1 q.1 refl)

  pub edit_item-Grown :
      (i : ℕ) (u : Updates) (a : ℕ) → Ensures (λ p. Grown db p.1) (edit_item env i u a db)
  unfolding edit_item
  edit_item-Grown i u a = or_raise-Ensures _ _ _ λ item found. bind-Ensures _ _ λ checked e.
      then-Grown db _ _ (update_item-Grown env db _) λ p.
        then-Grown p.1 _ _ (log_edit-Grown env p.1 _ _ a) λ q. returns (Grown-refl q.1 q.1 refl)

  pub change_role-Grown :
      (u : ℕ) (role : UserRole) → Ensures (λ p. Grown db p.1) (change_role env u role db)
  unfolding change_role
  change_role-Grown u role = or_raise-Ensures _ _ _ λ user found. update_user-Grown env db _

  pub deactivate-Grown : (u : ℕ) → Ensures (λ p. Grown db p.1) (deactivate env u db)
  unfolding deactivate
  deactivate-Grown u =
      or_raise-Ensures _ _ _ λ user found. raise_if-Ensures _ _ _ λ free. update_user-Grown env db _

  pub activate-Grown : (u : ℕ) → Ensures (λ p. Grown db p.1) (activate env u db)
  unfolding activate
  activate-Grown u = or_raise-Ensures _ _ _ λ user found. update_user-Grown env db _

  pub create_user-Grown :
      (hash name email : String) (role : UserRole)
      → Ensures (λ p. Grown db p.1) (create_user env hash name email role db)
  unfolding create_user
  create_user-Grown hash name email role = raise_if-Ensures _ _ _ λ new.
      all_Ensures _
        λ p e. Grown-refl db p.1 (ground (arith, insert_user-ok _ db {row = p.0} {db' = p.1} e))

  insert_item-Grown : (i : Item) → Ensures (λ p. Grown db p.1) (insert_item i db)
  insert_item-Grown i =
      all_Ensures _
        λ p e. Grown-refl db p.1 (ground (arith, insert_item-ok i db {row = p.0} {db' = p.1} e))

  pub create_item-Grown :
      (name serial_no : String) (c : ℕ) (owner_type : OwnerType) (client_name : Option String)
      (d : Option ℕ) (a : ℕ)
      → Ensures (λ p. Grown db p.1) (create_item env name serial_no c owner_type client_name d a db)
  unfolding create_item
  create_item-Grown name serial_no c owner_type client_name d a =
      or_raise-Ensures _ _ _ λ category found. raise_if-Ensures _ _ _ λ new.
        then-Grown db _ _ (insert_item-Grown _)
          λ p. then-Grown p.1 _ _ (append-Grown env _ p.1) λ q. returns (Grown-refl q.1 q.1 refl)
