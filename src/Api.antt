-- ===== src/Api.antt =====
-- app/api/v1/routers/ and app/schemas/: the calls that change state, with the validation of their
-- bodies, and app/db/session.py: a call is a transaction.
pub mod Reach
pub mod LifeCycle
pub mod Guard
pub mod History
use asset_pilot_fastapi.Services.Auth.{register_user}
use asset_pilot_fastapi.Prelude.{
  ℕ, String, Bool, true, false, not, ◌&&◌, ◌||◌, Option, none, some, leb, is_none, same, str_eq,
}
use asset_pilot_fastapi.Result.{Error, Result, ok, err, ◌>>=◌, ◌>>◌, raise_if, validation}
use asset_pilot_fastapi.Enums.{DeviceStatus, OwnerType, SupportResolution, UserRole}
use asset_pilot_fastapi.Database.{Db, Env}
use asset_pilot_fastapi.Services.Assignment.{update_booking_range, assign, direct_assign}
use asset_pilot_fastapi.Services.Requests.{reject, cancel, escalate_to_manager}
use asset_pilot_fastapi.Services.Shipping.{ship, confirm_delivery, complete_return}
use asset_pilot_fastapi.Services.Extension
use asset_pilot_fastapi.Services.Support.{start, resolve}
use asset_pilot_fastapi.Services.Inventory.{Updates, create_item, edit_item, change_status}
use asset_pilot_fastapi.Services.Users.{create_user, change_role, deactivate, activate}

-- A call of an endpoint: its path parameters and its body. The last number of a call is the actor's
-- id, where the endpoint passes it on; `create_user` has the hash of the new user's password.
pub data Call : Type 0 where
  update_booking_range_call : ℕ → ℕ → ℕ → Call
  assign_call : ℕ → ℕ → ℕ → ℕ → Bool → ℕ → Call
  direct_assign_call : ℕ → ℕ → ℕ → ℕ → ℕ → Call
  reject_call : ℕ → String → Option String → ℕ → Call
  cancel_call : ℕ → String → ℕ → Call
  escalate_call : ℕ → Option ℕ → Call
  ship_call : ℕ → String → ℕ → Call
  confirm_delivery_call : ℕ → ℕ → Call
  complete_return_call : ℕ → DeviceStatus → ℕ → Call
  approve_extension_call : ℕ → Option String → ℕ → Call
  reject_extension_call : ℕ → Option String → ℕ → Call
  start_support_call : ℕ → ℕ → Call
  resolve_support_call :
      ℕ → SupportResolution → Option String → Option ℕ → Option DeviceStatus → ℕ → Call
  create_item_call : String → String → ℕ → OwnerType → Option String → Option ℕ → ℕ → Call
  edit_item_call : ℕ → Updates → ℕ → Call
  change_status_call : ℕ → DeviceStatus → Option String → ℕ → Call
  create_user_call : String → String → String → UserRole → Call
  change_role_call : ℕ → UserRole → Call
  deactivate_call : ℕ → Call
  activate_call : ℕ → Call

-- `_from_before_to` of the three bodies with a range.
abbrev pub invalid_range : ℕ → ℕ → Bool
invalid_range assigned_from assigned_to = leb assigned_to assigned_from

-- `_ALLOWED_NEXT_STATUSES` of a completed return.
abbrev pub is_allowed_next : DeviceStatus → Bool
is_allowed_next DeviceStatus.available = true
is_allowed_next DeviceStatus.under_repair = true
is_allowed_next DeviceStatus.retired = true
is_allowed_next _ = false

-- `_CHANGEABLE_STATUSES`
abbrev pub is_changeable : DeviceStatus → Bool
is_changeable DeviceStatus.available = true
is_changeable DeviceStatus.under_repair = true
is_changeable DeviceStatus.maintenance = true
is_changeable DeviceStatus.lost = true
is_changeable DeviceStatus.retired = true
is_changeable DeviceStatus.returned_to_client = true
is_changeable _ = false

-- `_swap_fields_required_for_swap`
abbrev pub lacks_swap_fields : SupportResolution → Option ℕ → Option DeviceStatus → Bool
lacks_swap_fields SupportResolution.swapped swapped_to next_status =
    is_none swapped_to || is_none next_status
lacks_swap_fields _ swapped_to next_status = false

-- `not self.client_name`: no name, or the empty one.
abbrev pub is_blank : Option String → Bool
is_blank none = true
is_blank (some s) = str_eq s ""

-- `_client_name_required_for_client_owner`
abbrev pub lacks_client_name : OwnerType → Option String → Bool
lacks_client_name OwnerType.client client_name = is_blank client_name
lacks_client_name OwnerType.company client_name = false

-- Whether the body of a call passes its validators.
unfoldable pub is_invalid : Call → Bool
is_invalid (update_booking_range_call r from to) = invalid_range from to
is_invalid (assign_call r i from to wfh a) = invalid_range from to
is_invalid (direct_assign_call i e from to a) = invalid_range from to
is_invalid (complete_return_call r next a) = not (is_allowed_next next)
is_invalid (change_status_call i status it_note a) = not (is_changeable status)
is_invalid (resolve_support_call s resolution it_note swapped_to next a) =
    lacks_swap_fields resolution swapped_to next
is_invalid (create_item_call name serial_no c owner_type client_name d a) =
    lacks_client_name owner_type client_name
is_invalid _ = false

-- The database after a handler that returns.
abbrev pub database_of : {A : Type 0} → Result (A × Db) → Result Db
database_of (ok p) = ok p.1
database_of (err e) = err e

-- The service call of an endpoint.
unfoldable pub dispatch : Env → Call → Db → Result Db
dispatch env (update_booking_range_call r from to) db =
    database_of (update_booking_range env r from to db)
dispatch env (assign_call r i from to wfh a) db = database_of (assign env r i from to wfh a db)
dispatch env (direct_assign_call i e from to a) db =
    database_of (direct_assign env i e from to a db)
dispatch env (reject_call r reason it_note a) db = database_of (reject env r reason it_note a db)
dispatch env (cancel_call r reason a) db = database_of (cancel env r reason a db)
dispatch env (escalate_call r m) db = database_of (escalate_to_manager env r m db)
dispatch env (ship_call r url a) db = database_of (ship env r url a db)
dispatch env (confirm_delivery_call r a) db = database_of (confirm_delivery env r a db)
dispatch env (complete_return_call r next a) db = database_of (complete_return env r next a db)
dispatch env (approve_extension_call x it_note a) db =
    database_of (Extension.approve env x it_note a db)
dispatch env (reject_extension_call x it_note a) db =
    database_of (Extension.reject env x it_note a db)
dispatch env (start_support_call s a) db = database_of (start env s a db)
dispatch env (resolve_support_call s resolution it_note swapped_to next a) db =
    database_of (resolve env s resolution it_note swapped_to next a db)
dispatch env (create_item_call name serial_no c owner_type client_name d a) db =
    database_of (create_item env name serial_no c owner_type client_name d a db)
dispatch env (edit_item_call i u a) db = database_of (edit_item env i u a db)
dispatch env (change_status_call i status it_note a) db =
    database_of (change_status env i status it_note a db)
dispatch env (create_user_call hash name email role) db =
    database_of (create_user env hash name email role db)
dispatch env (change_role_call u role) db = database_of (change_role env u role db)
dispatch env (deactivate_call u) db = database_of (deactivate env u db)
dispatch env (activate_call u) db = database_of (activate env u db)

-- A call as FastAPI handles it: the body's validation, then the service.
unfoldable pub handle : Env → Call → Db → Result Db
handle env call db = do
  raise_if (is_invalid call) (validation "Request validation failed.")
  dispatch env call db

-- The session commits what a handler has flushed, or rolls it back if the handler raised.
unfoldable pub commit : Db → Result Db → Option Error × Db
commit db (ok db') = (none, db')
commit db (err e) = (some e, db)

unfoldable pub serve : Env → Call → Db → Option Error × Db
unfolding handle commit
serve env call db = commit db (handle env call db)

-- The registration of a new user, which is no call of an administrator: the hash is what `hash_password`
-- gives for the password of the body.
unfoldable pub serve_register :
    Env → Option String → String → String → UserRole → Db → Option Error × Db
unfolding commit
serve_register env hash name email role db =
    commit db (database_of (register_user env hash name email role db))
