-- ===== src/Outcomes/TicketMoves.antt =====
-- The requests after each operation on tickets, devices and users.

use asset_pilot_fastapi.Repositories.Laws.{
  insert_item-ok, update_user-ok, insert_user-ok, update_item-ok, update_support_request-ok,
}
use asset_pilot_fastapi.Outcomes.Support.{start_repair-SentToRepair}
use asset_pilot_fastapi.Outcomes.Writes.{append-Logged}
use asset_pilot_fastapi.Repositories.{update_user, insert_item, update_item, update_support_request}
use asset_pilot_fastapi.Outcomes.Moves.{unmoved, resolve_device-Moved, SameRequests, Moved}
use asset_pilot_fastapi.Enums.{OwnerType, DeviceStatus, UserRole, SupportType, SupportResolution}
use asset_pilot_fastapi.Result.{◌>>=◌, ◌>>=◌, Result}
use asset_pilot_fastapi.Services.DeviceLog.{append, LogArgs}
use asset_pilot_fastapi.Services.Inventory.{
  Updates, create_item, edit_item, change_status, log_edit,
}
use asset_pilot_fastapi.Services.Users.{activate, change_role, deactivate, create_user}
use asset_pilot_fastapi.Models.{FieldChange, User, SupportRequest, Item}
use asset_pilot_fastapi.Database.{Db, Env}
use asset_pilot_fastapi.Services.Support.{start_by_type, start, resolve}
use asset_pilot_fastapi.Result.Ensures.{
  all_Ensures, then-Ensures, bind-Ensures, or_raise-Ensures, map-Ensures, raise_if-Ensures, Ensures,
  returns,
}
use asset_pilot_fastapi.Prelude.{[], ◌∙◌, ◌∙◌, arith, refl, ◌∷◌, String, Option, List, ℕ}

-- Parts after which the requests are as before.
then-SameRequests :
    {A B : Type 0} (db : Db) (m : Result (A × Db)) (f : A × Db → Result (B × Db))
    → Ensures (λ p. SameRequests db p.1) m
    → ((p : A × Db) → Ensures (λ q. SameRequests p.1 q.1) (f p))
    → Ensures (λ q. SameRequests db q.1) (m >>= f)
then-SameRequests db m f h k = then-Ensures m f h λ p e. map-Ensures (f p) (k p) λ q e'. e' ∙ e

further-Moved : (db db1 db2 : Db) → Moved db db1 → SameRequests db1 db2 → Moved db db2
further-Moved db db1 db2 (Moved.same_rows h) e = Moved.same_rows (e ∙ h)
further-Moved db db1 db2 (Moved.one_added new h) e = Moved.one_added new (e ∙ h)
further-Moved db db1 db2 (Moved.one_rewritten k0 old new found same_key moves h) e =
    Moved.one_rewritten k0 old new found same_key moves (e ∙ h)

then-Moved :
    {A B : Type 0} (db : Db) (m : Result (A × Db)) (f : A × Db → Result (B × Db))
    → Ensures (λ p. Moved db p.1) m
    → ((p : A × Db) → Ensures (λ q. SameRequests p.1 q.1) (f p))
    → Ensures (λ q. Moved db q.1) (m >>= f)
then-Moved db m f h k =
    then-Ensures m f h λ p moved. map-Ensures (f p) (k p) λ q e. further-Moved db p.1 q.1 moved e

module _ (env : Env) (db : Db) where
  append-SameRequests : (a : LogArgs) → Ensures (λ p. SameRequests db p.1) (append env a db)
  append-SameRequests a = map-Ensures _ (append-Logged env a db) λ p o. ground (arith, o)

  update_item-SameRequests : (i : Item) → Ensures (λ p. SameRequests db p.1) (update_item env i db)
  update_item-SameRequests i =
      all_Ensures _ λ p e. ground (arith, update_item-ok env i db {row = p.0} {db' = p.1} e)

  update_user-Moved : (u : User) → Ensures (λ p. Moved db p.1) (update_user env u db)
  update_user-Moved u =
      all_Ensures _
        λ p e. unmoved db p.1 (ground (arith, update_user-ok env u db {row = p.0} {db' = p.1} e))

  update_support_request-SameRequests :
      (s : SupportRequest) → Ensures (λ p. SameRequests db p.1) (update_support_request env s db)
  update_support_request-SameRequests s =
      all_Ensures _
        λ p e. ground (arith, update_support_request-ok env s db {row = p.0} {db' = p.1} e)

  start_by_type-SameRequests :
      (type : SupportType) (ticket : SupportRequest) (a : ℕ)
      → Ensures (λ p. SameRequests db p.1) (start_by_type env type ticket a db)
  unfolding start_by_type
  start_by_type-SameRequests SupportType.damage ticket a =
      map-Ensures _ (start_repair-SentToRepair env ticket a db)
        λ p o. ground (arith, o.changed.database)
  start_by_type-SameRequests SupportType.update ticket a = returns refl
  start_by_type-SameRequests SupportType.lost ticket a = returns refl

  log_edit-SameRequests :
      (item_id : ℕ) (cs : List FieldChange) (a : ℕ)
      → Ensures (λ p. SameRequests db p.1) (log_edit env item_id cs a db)
  unfolding log_edit
  log_edit-SameRequests item_id [] a = returns refl
  log_edit-SameRequests item_id (c ∷ cs) a =
      then-SameRequests db _ _ (append-SameRequests _) λ p. returns refl

  insert_item-SameRequests : (i : Item) → Ensures (λ p. SameRequests db p.1) (insert_item i db)
  insert_item-SameRequests i =
      all_Ensures _ λ p e. ground (arith, insert_item-ok i db {row = p.0} {db' = p.1} e)

then-Unmoved :
    {A B : Type 0} (db : Db) (m : Result (A × Db)) (f : A × Db → Result (B × Db))
    → Ensures (λ p. SameRequests db p.1) m
    → ((p : A × Db) → Ensures (λ q. SameRequests p.1 q.1) (f p))
    → Ensures (λ q. Moved db q.1) (m >>= f)
then-Unmoved db m f h k =
    map-Ensures (m >>= f) (then-SameRequests db m f h k) λ q e. unmoved db q.1 e

module _ (env : Env) (db : Db) where
  pub start-Moved : (s a : ℕ) → Ensures (λ p. Moved db p.1) (start env s a db)
  unfolding start
  start-Moved s a = or_raise-Ensures _ _ _ λ ticket found. raise_if-Ensures _ _ _ λ is_open.
      then-Unmoved db _ _ (update_support_request-SameRequests env db _)
        λ p. then-SameRequests p.1 _ _ (start_by_type-SameRequests env p.1 _ _ a) λ q. returns refl

  pub resolve-Moved :
      (s : ℕ) (resolution : SupportResolution) (it_note : Option String) (to : Option ℕ)
      (next : Option DeviceStatus) (a : ℕ)
      → Ensures (λ p. Moved db p.1) (resolve env s resolution it_note to next a db)
  unfolding resolve
  resolve-Moved s resolution it_note to next a = or_raise-Ensures _ _ _ λ ticket found.
      raise_if-Ensures _ _ _ λ is_open. or_raise-Ensures _ _ _ λ item item_found.
        then-Moved db _ _ (resolve_device-Moved env db resolution ticket item to next a) λ p.
          then-SameRequests p.1 _ _ (update_support_request-SameRequests env p.1 _)
            λ q. then-SameRequests q.1 _ _ (append-SameRequests env q.1 _) λ u. returns refl

  pub change_status-Moved :
      (i : ℕ) (status : DeviceStatus) (it_note : Option String) (a : ℕ)
      → Ensures (λ p. Moved db p.1) (change_status env i status it_note a db)
  unfolding change_status
  change_status-Moved i status it_note a = or_raise-Ensures _ _ _ λ item found.
      then-Unmoved db _ _ (update_item-SameRequests env db _)
        λ p. then-SameRequests p.1 _ _ (append-SameRequests env p.1 _) λ q. returns refl

  pub edit_item-Moved :
      (i : ℕ) (u : Updates) (a : ℕ) → Ensures (λ p. Moved db p.1) (edit_item env i u a db)
  unfolding edit_item
  edit_item-Moved i u a = or_raise-Ensures _ _ _ λ item found. bind-Ensures _ _ λ checked e.
      then-Unmoved db _ _ (update_item-SameRequests env db _)
        λ p. then-SameRequests p.1 _ _ (log_edit-SameRequests env p.1 _ _ a) λ q. returns refl

  pub change_role-Moved :
      (u : ℕ) (role : UserRole) → Ensures (λ p. Moved db p.1) (change_role env u role db)
  unfolding change_role
  change_role-Moved u role = or_raise-Ensures _ _ _ λ user found. update_user-Moved env db _

  pub deactivate-Moved : (u : ℕ) → Ensures (λ p. Moved db p.1) (deactivate env u db)
  unfolding deactivate
  deactivate-Moved u =
      or_raise-Ensures _ _ _ λ user found. raise_if-Ensures _ _ _ λ free. update_user-Moved env db _

  pub activate-Moved : (u : ℕ) → Ensures (λ p. Moved db p.1) (activate env u db)
  unfolding activate
  activate-Moved u = or_raise-Ensures _ _ _ λ user found. update_user-Moved env db _

  pub create_user-Moved :
      (hash name email : String) (role : UserRole)
      → Ensures (λ p. Moved db p.1) (create_user env hash name email role db)
  unfolding create_user
  create_user-Moved hash name email role = raise_if-Ensures _ _ _ λ new.
      all_Ensures _
        λ p e. unmoved db p.1 (ground (arith, insert_user-ok _ db {row = p.0} {db' = p.1} e))

  pub create_item-Moved :
      (name serial_no : String) (c : ℕ) (owner_type : OwnerType) (client_name : Option String)
      (d : Option ℕ) (a : ℕ)
      → Ensures (λ p. Moved db p.1) (create_item env name serial_no c owner_type client_name d a db)
  unfolding create_item
  create_item-Moved name serial_no c owner_type client_name d a =
      or_raise-Ensures _ _ _ λ category found. raise_if-Ensures _ _ _ λ new.
        then-Unmoved db _ _ (insert_item-SameRequests env db _)
          λ p. then-SameRequests p.1 _ _ (append-SameRequests env p.1 _) λ q. returns refl
