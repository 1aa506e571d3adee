-- ===== src/Api/Reach.antt =====
-- The databases that calls and registrations lead to, one after another, and what holds of them all.
-- A step is one call or one registration, whatever it reads from outside; calls that overlap in time are taken in the
-- order of their commits.
use asset_pilot_fastapi.Invariant.Inventory.{
  activate-Keeps, deactivate-Keeps, change_role-Keeps, create_user-Keeps, change_status-Keeps,
  edit_item-Keeps, create_item-Keeps,
}
use asset_pilot_fastapi.Invariant.Support.{resolve-Keeps, start-Keeps}
use asset_pilot_fastapi.Invariant.Shipping.{
  complete_return-Keeps, confirm_delivery-Keeps, ship-Keeps,
}
use asset_pilot_fastapi.Invariant.Requests.{escalate_to_manager-Keeps, cancel-Keeps}
use asset_pilot_fastapi.Invariant.Assignment.{
  direct_assign-Keeps, assign-Keeps, update_booking_range-Keeps,
}
use asset_pilot_fastapi.Result.Ensures.{
  or_raise-Ensures, raises, returns, Ensures, raise_if-Ensures,
}
use asset_pilot_fastapi.Invariant.Keeps.{insert_user-Keeps, Keeps}
use asset_pilot_fastapi.Services.Auth.{register_user}
use asset_pilot_fastapi.Api.{
  UserRole, register_user, String, serve_register, Option, database_of, Db, dispatch, Env, commit,
  Result, Call, serve, update_booking_range_call, assign_call, direct_assign_call, reject_call,
  cancel_call, escalate_call, ship_call, confirm_delivery_call, complete_return_call,
  approve_extension_call, reject_extension_call, start_support_call, resolve_support_call,
  create_item_call, edit_item_call, change_status_call, create_user_call, change_role_call,
  deactivate_call, activate_call,
}
use asset_pilot_fastapi.Invariant.Requests
use asset_pilot_fastapi.Invariant.Extension
use asset_pilot_fastapi.Invariant.Extension.{approve-Keeps}
use asset_pilot_fastapi.Invariant.{IsValid}

pub data Reach (start : Db) : Db → Type 0 where
  here : Reach start start
  step : {db : Db} (env : Env) (call : Call) → Reach start db → Reach start (serve env call db).1
  joined :
      {db : Db} (env : Env) (hash : Option String) (name email : String) (role : UserRole)
      → Reach start db
      → Reach start (serve_register env hash name email role db).1

of_database : {A : Type 0} (m : Result (A × Db)) → Keeps m → Ensures IsValid (database_of m)
of_database m (returns p) = returns p
of_database m raises = raises

dispatch-IsValid :
    (env : Env) (call : Call) (db : Db) → IsValid db → Ensures IsValid (dispatch env call db)
unfolding dispatch
dispatch-IsValid env (update_booking_range_call r from to) db v =
    of_database _ (update_booking_range-Keeps env db v r from to)
dispatch-IsValid env (assign_call r i from to wfh a) db v =
    of_database _ (assign-Keeps env db v r i from to wfh a)
dispatch-IsValid env (direct_assign_call i e from to a) db v =
    of_database _ (direct_assign-Keeps env db v i e from to a)
dispatch-IsValid env (reject_call r reason it_note a) db v =
    of_database _ (Requests.reject-Keeps env db v r reason it_note a)
dispatch-IsValid env (cancel_call r reason a) db v =
    of_database _ (cancel-Keeps env db v r reason a)
dispatch-IsValid env (escalate_call r m) db v =
    of_database _ (escalate_to_manager-Keeps env db v r m)
dispatch-IsValid env (ship_call r url a) db v = of_database _ (ship-Keeps env db v r url a)
dispatch-IsValid env (confirm_delivery_call r a) db v =
    of_database _ (confirm_delivery-Keeps env db v r a)
dispatch-IsValid env (complete_return_call r next a) db v =
    of_database _ (complete_return-Keeps env db v r next a)
dispatch-IsValid env (approve_extension_call x it_note a) db v =
    of_database _ (approve-Keeps env db v x it_note a)
dispatch-IsValid env (reject_extension_call x it_note a) db v =
    of_database _ (Extension.reject-Keeps env db v x it_note a)
dispatch-IsValid env (start_support_call s a) db v = of_database _ (start-Keeps env db v s a)
dispatch-IsValid env (resolve_support_call s resolution it_note swapped_to next a) db v =
    of_database _ (resolve-Keeps env db v s resolution it_note swapped_to next a)
dispatch-IsValid env (create_item_call name serial_no c owner_type client_name d a) db v =
    of_database _ (create_item-Keeps env db v name serial_no c owner_type client_name d a)
dispatch-IsValid env (edit_item_call i u a) db v = of_database _ (edit_item-Keeps env db v i u a)
dispatch-IsValid env (change_status_call i status it_note a) db v =
    of_database _ (change_status-Keeps env db v i status it_note a)
dispatch-IsValid env (create_user_call hash name email role) db v =
    of_database _ (create_user-Keeps env db v hash name email role)
dispatch-IsValid env (change_role_call u role) db v =
    of_database _ (change_role-Keeps env db v u role)
dispatch-IsValid env (deactivate_call u) db v = of_database _ (deactivate-Keeps env db v u)
dispatch-IsValid env (activate_call u) db v = of_database _ (activate-Keeps env db v u)

commit-IsValid :
    (db : Db) (m : Result Db) → IsValid db → Ensures IsValid m → IsValid (commit db m).1
unfolding commit
commit-IsValid db m valid (returns p) = p
commit-IsValid db m valid raises = valid

-- Each call, whatever its outcome, leaves a valid database.
pub serve-IsValid : (env : Env) (call : Call) (db : Db) → IsValid db → IsValid (serve env call db).1
unfolding serve
serve-IsValid env call db valid =
    commit-IsValid db _ valid
      (raise_if-Ensures _ _ _ λ well_formed. dispatch-IsValid env call db valid)

serve_register-IsValid :
    (env : Env) (hash : Option String) (name email : String) (role : UserRole) (db : Db)
    → IsValid db
    → IsValid (serve_register env hash name email role db).1
unfolding serve_register register_user
serve_register-IsValid env hash name email role db valid = commit-IsValid db _ valid (
    of_database _ (
      raise_if-Ensures _ _ _
        λ fresh. or_raise-Ensures _ _ _ λ hashed is_hash. insert_user-Keeps env db valid _))

-- Every database that calls and registrations lead to from a valid one is valid: no table of items, requests, tickets or logs has two rows with one id, no two requests share an entry of the partial unique index on device and status, and every assigned request has a device and both ends of its booking.
pub Reach-IsValid : {start db : Db} → IsValid start → Reach start db → IsValid db
Reach-IsValid valid here = valid
Reach-IsValid valid (step {db = before} env call r) =
    serve-IsValid env call before (Reach-IsValid valid r)
Reach-IsValid valid (joined {db = before} env hash name email role r) =
    serve_register-IsValid env hash name email role before (Reach-IsValid valid r)
