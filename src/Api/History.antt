-- ===== src/Api/History.antt =====
-- The audit log over a history of calls.
use asset_pilot_fastapi.Repositories.Laws.{insert_user-ok}
use asset_pilot_fastapi.Result.Ensures.{all_Ensures, or_raise-Ensures, raises, returns}
use asset_pilot_fastapi.Api.Reach.{here, step, joined}
use asset_pilot_fastapi.Outcomes.DeviceLogs.{
  activate-Grown, deactivate-Grown, change_role-Grown, create_user-Grown, change_status-Grown,
  edit_item-Grown, create_item-Grown, resolve-Grown, start-Grown,
}
use asset_pilot_fastapi.Models.{DeviceLog}
use asset_pilot_fastapi.Result.Ensures.{raise_if-Ensures, returns, Ensures}
use asset_pilot_fastapi.Prelude.{arith, refl, ◌++◌, ◌++◌, ◌≡◌, ◌≡◌, List}
use asset_pilot_fastapi.Api.Reach.{step, Reach}
use asset_pilot_fastapi.Outcomes.Logs.{
  refuse-Grown, approve-Grown, complete_return-Grown, confirm_delivery-Grown, ship-Grown,
  escalate_to_manager-Grown, Grown-trans, cancel-Grown, reject-Grown, direct_assign-Grown,
  assign-Grown, Grown-refl, update_booking_range-Grown, Grown,
}
use asset_pilot_fastapi.Services.Auth.{register_user}
use asset_pilot_fastapi.Api.{
  UserRole, String, Option, serve_register, database_of, Call, Env, Result, handle, dispatch,
  commit, Db, serve, update_booking_range_call, assign_call, direct_assign_call, reject_call,
  cancel_call, escalate_call, ship_call, confirm_delivery_call, complete_return_call,
  approve_extension_call, reject_extension_call, start_support_call, resolve_support_call,
  create_item_call, edit_item_call, change_status_call, create_user_call, change_role_call,
  deactivate_call, activate_call,
}

database_of-Grown :
    {A : Type 0} (db : Db) (m : Result (A × Db))
    → Ensures (λ p. Grown db p.1) m
    → Ensures (Grown db) (database_of m)
database_of-Grown db m (returns p) = returns p
database_of-Grown db m raises = raises

dispatch-Grown : (env : Env) (call : Call) (db : Db) → Ensures (Grown db) (dispatch env call db)
unfolding dispatch
dispatch-Grown env (update_booking_range_call r from to) db =
    database_of-Grown db _ (update_booking_range-Grown env db r from to)
dispatch-Grown env (assign_call r i from to wfh a) db =
    database_of-Grown db _ (assign-Grown env db r i from to wfh a)
dispatch-Grown env (direct_assign_call i e from to a) db =
    database_of-Grown db _ (direct_assign-Grown env db i e from to a)
dispatch-Grown env (reject_call r reason it_note a) db =
    database_of-Grown db _ (reject-Grown env db r reason it_note a)
dispatch-Grown env (cancel_call r reason a) db =
    database_of-Grown db _ (cancel-Grown env db r reason a)
dispatch-Grown env (escalate_call r m) db =
    database_of-Grown db _ (escalate_to_manager-Grown env db r m)
dispatch-Grown env (ship_call r url a) db = database_of-Grown db _ (ship-Grown env db r url a)
dispatch-Grown env (confirm_delivery_call r a) db =
    database_of-Grown db _ (confirm_delivery-Grown env db r a)
dispatch-Grown env (complete_return_call r next a) db =
    database_of-Grown db _ (complete_return-Grown env db r next a)
dispatch-Grown env (approve_extension_call x it_note a) db =
    database_of-Grown db _ (approve-Grown env db x it_note a)
dispatch-Grown env (reject_extension_call x it_note a) db =
    database_of-Grown db _ (refuse-Grown env db x it_note a)
dispatch-Grown env (start_support_call s a) db = database_of-Grown db _ (start-Grown env db s a)
dispatch-Grown env (resolve_support_call s resolution it_note swapped_to next a) db =
    database_of-Grown db _ (resolve-Grown env db s resolution it_note swapped_to next a)
dispatch-Grown env (create_item_call name serial_no c owner_type client_name d a) db =
    database_of-Grown db _ (create_item-Grown env db name serial_no c owner_type client_name d a)
dispatch-Grown env (edit_item_call i u a) db = database_of-Grown db _ (edit_item-Grown env db i u a)
dispatch-Grown env (change_status_call i status it_note a) db =
    database_of-Grown db _ (change_status-Grown env db i status it_note a)
dispatch-Grown env (create_user_call hash name email role) db =
    database_of-Grown db _ (create_user-Grown env db hash name email role)
dispatch-Grown env (change_role_call u role) db =
    database_of-Grown db _ (change_role-Grown env db u role)
dispatch-Grown env (deactivate_call u) db = database_of-Grown db _ (deactivate-Grown env db u)
dispatch-Grown env (activate_call u) db = database_of-Grown db _ (activate-Grown env db u)

commit-Grown : (db : Db) (m : Result Db) → Ensures (Grown db) m → Grown db (commit db m).1
unfolding commit
commit-Grown db m (returns p) = p
commit-Grown db m raises = Grown-refl db db refl

serve-Grown : (env : Env) (call : Call) (db : Db) → Grown db (serve env call db).1
unfolding serve handle
serve-Grown env call db =
    commit-Grown db _ (raise_if-Ensures _ _ _ λ well_formed. dispatch-Grown env call db)

serve_register-Grown :
    (env : Env) (hash : Option String) (name email : String) (role : UserRole) (db : Db)
    → Grown db (serve_register env hash name email role db).1
unfolding serve_register register_user
serve_register-Grown env hash name email role db = commit-Grown db _ (
    database_of-Grown db _ (
      raise_if-Ensures _ _ _ λ fresh. or_raise-Ensures _ _ _ λ hashed is_hash.
        all_Ensures _ λ p wrote.
          Grown-refl db p.1 (ground (arith, insert_user-ok _ db {row = p.0} {db' = p.1} wrote))))

-- In every database that calls and registrations lead to, the log begins with the log of the database they started from: none of them, whether it returns or raises, changes, drops or reorders an entry.
pub log_append_only :
    {start db : Db}
    → Reach start db
    → (entries : List DeviceLog) × (db.device_logs ≡ start.device_logs ++ entries)
log_append_only {start} here = Grown-refl start start refl
log_append_only {start} (step {db = before} env call r) =
    Grown-trans start before (serve env call before).1 (log_append_only r)
      (serve-Grown env call before)
log_append_only {start} (joined {db = before} env hash name email role r) =
    Grown-trans start before (serve_register env hash name email role before).1 (log_append_only r)
      (serve_register-Grown env hash name email role before)
