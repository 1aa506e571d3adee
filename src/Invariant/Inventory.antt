-- ===== src/Invariant/Inventory.antt =====
-- The operations of the inventory and user services keep the invariant.
use asset_pilot_fastapi.Result.Ensures.{
  returns, then-Ensures, bind-Ensures, raise_if-Ensures, or_raise-Ensures,
}
use asset_pilot_fastapi.Models.{FieldChange}
use asset_pilot_fastapi.Invariant.Keeps.{
  append-Keeps, insert_item-Keeps, update_item-Keeps, insert_user-Keeps, update_user-Keeps, Keeps,
}
use asset_pilot_fastapi.Enums.{OwnerType, UserRole, DeviceStatus}
use asset_pilot_fastapi.Services.Inventory.{
  Updates, log_edit, change_status, edit_item, create_item,
}
use asset_pilot_fastapi.Services.Users.{create_user, change_role, activate, deactivate}
use asset_pilot_fastapi.Invariant.{List, IsValid}
use asset_pilot_fastapi.Database.{Db, Env}
use asset_pilot_fastapi.Prelude.{[], ◌∷◌, Option, String, ℕ}

module _ (env : Env) (db : Db) (valid : IsValid db) where
  pub create_item-Keeps :
      (name serial_no : String) (category_id : ℕ) (owner_type : OwnerType)
      (client_name : Option String) (purchase_date : Option ℕ) (actor_id : ℕ)
      → Keeps (
          create_item env name serial_no category_id owner_type client_name purchase_date actor_id
            db)
  unfolding create_item
  create_item-Keeps name serial_no category_id owner_type client_name purchase_date actor_id =
      or_raise-Ensures _ _ _ λ category known. raise_if-Ensures _ _ _ λ fresh.
        then-Ensures _ _ (insert_item-Keeps env db valid _)
          λ p valid1. then-Ensures _ _ (append-Keeps env p.1 valid1 _) λ q valid2. returns valid2

  log_edit-Keeps :
      (item_id : ℕ) (cs : List FieldChange) (actor_id : ℕ)
      → Keeps (log_edit env item_id cs actor_id db)
  unfolding log_edit
  log_edit-Keeps item_id [] actor_id = returns valid
  log_edit-Keeps item_id (c ∷ cs) actor_id =
      then-Ensures _ _ (append-Keeps env db valid _) λ p valid1. returns valid1

module _ (env : Env) (db : Db) (valid : IsValid db) where
  pub edit_item-Keeps :
      (item_id : ℕ) (u : Updates) (actor_id : ℕ) → Keeps (edit_item env item_id u actor_id db)
  unfolding edit_item
  edit_item-Keeps item_id u actor_id = or_raise-Ensures _ _ _ λ item found.
      bind-Ensures _ _ λ checked e. then-Ensures _ _ (update_item-Keeps env db valid _) λ p valid1.
        then-Ensures _ _ (log_edit-Keeps env p.1 valid1 _ _ _) λ q valid2. returns valid2

  pub change_status-Keeps :
      (item_id : ℕ) (status : DeviceStatus) (it_note : Option String) (actor_id : ℕ)
      → Keeps (change_status env item_id status it_note actor_id db)
  unfolding change_status
  change_status-Keeps item_id status it_note actor_id = or_raise-Ensures _ _ _ λ item found.
      then-Ensures _ _ (update_item-Keeps env db valid _)
        λ p valid1. then-Ensures _ _ (append-Keeps env p.1 valid1 _) λ q valid2. returns valid2

  pub create_user-Keeps :
      (password_hash name email : String) (role : UserRole)
      → Keeps (create_user env password_hash name email role db)
  unfolding create_user
  create_user-Keeps password_hash name email role =
      raise_if-Ensures _ _ _ λ fresh. insert_user-Keeps env db valid _

  pub change_role-Keeps : (user_id : ℕ) (role : UserRole) → Keeps (change_role env user_id role db)
  unfolding change_role
  change_role-Keeps user_id role =
      or_raise-Ensures _ _ _ λ user found. update_user-Keeps env db valid _

  pub deactivate-Keeps : (user_id : ℕ) → Keeps (deactivate env user_id db)
  unfolding deactivate
  deactivate-Keeps user_id =
      or_raise-Ensures _ _ _
        λ user found. raise_if-Ensures _ _ _ λ idle. update_user-Keeps env db valid _

  pub activate-Keeps : (user_id : ℕ) → Keeps (activate env user_id db)
  unfolding activate
  activate-Keeps user_id = or_raise-Ensures _ _ _ λ user found. update_user-Keeps env db valid _
