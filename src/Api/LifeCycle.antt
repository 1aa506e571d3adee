-- ===== src/Api/LifeCycle.antt =====
-- The life cycle of requests over a history of calls.
use asset_pilot_fastapi.Repositories.Laws.{insert_user-ok}
use asset_pilot_fastapi.Outcomes.TicketMoves.{
  activate-Moved, deactivate-Moved, change_role-Moved, create_user-Moved, change_status-Moved,
  edit_item-Moved, create_item-Moved, resolve-Moved, start-Moved,
}
use asset_pilot_fastapi.Database.{is_terminal}
use asset_pilot_fastapi.Models.{Request}
use asset_pilot_fastapi.Repositories.{get_request}
use asset_pilot_fastapi.Prelude.{refl, arith, ◌≡◌}
use asset_pilot_fastapi.Enums.{RequestStatus}
use asset_pilot_fastapi.Result.Ensures.{
  all_Ensures, or_raise-Ensures, raise_if-Ensures, Ensures, raises, returns,
}
use asset_pilot_fastapi.Api.Reach.{Reach, here, step, joined}
use asset_pilot_fastapi.Outcomes.Moves.{
  moves-Moved, refuse-Moved, approve-Moved, complete_return-Moved, confirm_delivery-Moved,
  ship-Moved, escalate_to_manager-Moved, cancel-Moved, reject-Moved, direct_assign-Moved,
  assign-Moved, unmoved, update_booking_range-Moved, Moved, may_move,
}
use asset_pilot_fastapi.Services.Auth.{register_user}
use asset_pilot_fastapi.Api.{
  UserRole, String, Option, serve_register, database_of, some, true, Call, Result, ℕ, handle, Env,
  Db, serve, commit, dispatch, update_booking_range_call, assign_call, direct_assign_call,
  reject_call, cancel_call, escalate_call, ship_call, confirm_delivery_call, complete_return_call,
  approve_extension_call, reject_extension_call, start_support_call, resolve_support_call,
  create_item_call, edit_item_call, change_status_call, create_user_call, change_role_call,
  deactivate_call, activate_call,
}

database_of-Moved :
    {A : Type 0} (db : Db) (m : Result (A × Db))
    → Ensures (λ p. Moved db p.1) m
    → Ensures (Moved db) (database_of m)
database_of-Moved db m (returns p) = returns p
database_of-Moved db m raises = raises

pub dispatch-Moved : (env : Env) (call : Call) (db : Db) → Ensures (Moved db) (dispatch env call db)
unfolding dispatch
dispatch-Moved env (update_booking_range_call r from to) db =
    database_of-Moved db _ (update_booking_range-Moved env db r from to)
dispatch-Moved env (assign_call r i from to wfh a) db =
    database_of-Moved db _ (assign-Moved env db r i from to wfh a)
dispatch-Moved env (direct_assign_call i e from to a) db =
    database_of-Moved db _ (direct_assign-Moved env db i e from to a)
dispatch-Moved env (reject_call r reason it_note a) db =
    database_of-Moved db _ (reject-Moved env db r reason it_note a)
dispatch-Moved env (cancel_call r reason a) db =
    database_of-Moved db _ (cancel-Moved env db r reason a)
dispatch-Moved env (escalate_call r m) db =
    database_of-Moved db _ (escalate_to_manager-Moved env db r m)
dispatch-Moved env (ship_call r url a) db = database_of-Moved db _ (ship-Moved env db r url a)
dispatch-Moved env (confirm_delivery_call r a) db =
    database_of-Moved db _ (confirm_delivery-Moved env db r a)
dispatch-Moved env (complete_return_call r next a) db =
    database_of-Moved db _ (complete_return-Moved env db r next a)
dispatch-Moved env (approve_extension_call x it_note a) db =
    database_of-Moved db _ (approve-Moved env db x it_note a)
dispatch-Moved env (reject_extension_call x it_note a) db =
    database_of-Moved db _ (refuse-Moved env db x it_note a)
dispatch-Moved env (start_support_call s a) db = database_of-Moved db _ (start-Moved env db s a)
dispatch-Moved env (resolve_support_call s resolution it_note swapped_to next a) db =
    database_of-Moved db _ (resolve-Moved env db s resolution it_note swapped_to next a)
dispatch-Moved env (create_item_call name serial_no c owner_type client_name d a) db =
    database_of-Moved db _ (create_item-Moved env db name serial_no c owner_type client_name d a)
dispatch-Moved env (edit_item_call i u a) db = database_of-Moved db _ (edit_item-Moved env db i u a)
dispatch-Moved env (change_status_call i status it_note a) db =
    database_of-Moved db _ (change_status-Moved env db i status it_note a)
dispatch-Moved env (create_user_call hash name email role) db =
    database_of-Moved db _ (create_user-Moved env db hash name email role)
dispatch-Moved env (change_role_call u role) db =
    database_of-Moved db _ (change_role-Moved env db u role)
dispatch-Moved env (deactivate_call u) db = database_of-Moved db _ (deactivate-Moved env db u)
dispatch-Moved env (activate_call u) db = database_of-Moved db _ (activate-Moved env db u)

pub commit-Moved : (db : Db) (m : Result Db) → Ensures (Moved db) m → Moved db (commit db m).1
unfolding commit
commit-Moved db m (returns p) = p
commit-Moved db m raises = unmoved db db refl

-- Whatever a call does, a request that was there is still there, and its status is as before or has moved along an edge of the life cycle: from waiting for IT to assigned, rejected or waiting for a manager; from any that is not rejected, completed or cancelled to cancelled; or to completed.
pub serve_moves :
    (env : Env) (call : Call) (db : Db) (request_id : ℕ) (old : Request)
    → get_request request_id db ≡ some old
    → (new : Request) × (get_request request_id (serve env call db).1 ≡ some new)
      × (may_move old.status new.status ≡ true)
unfolding serve handle get_request
serve_moves env call db request_id old found =
    moves-Moved db (serve env call db).1 request_id old
      (commit-Moved db _ (raise_if-Ensures _ _ _ λ well_formed. dispatch-Moved env call db)) found

terminal_stays :
    (old new : RequestStatus)
    → may_move old new ≡ true
    → is_terminal old ≡ true
    → is_terminal new ≡ true
terminal_stays old new h e = ground arith

serve_register-Moved :
    (env : Env) (hash : Option String) (name email : String) (role : UserRole) (db : Db)
    → Moved db (serve_register env hash name email role db).1
unfolding serve_register register_user
serve_register-Moved env hash name email role db = commit-Moved db _ (
    database_of-Moved db _ (
      raise_if-Ensures _ _ _ λ fresh. or_raise-Ensures _ _ _ λ hashed is_hash.
        all_Ensures _ λ p wrote.
          unmoved db p.1 (ground (arith, insert_user-ok _ db {row = p.0} {db' = p.1} wrote))))

-- Over any number of calls and registrations, a request that was rejected, completed or cancelled is still there, and is rejected, completed or cancelled.
pub terminal_forever :
    {start db : Db} (request_id : ℕ) (old : Request)
    → Reach start db
    → get_request request_id start ≡ some old
    → is_terminal old.status ≡ true
    → (new : Request) × (get_request request_id db ≡ some new) × (is_terminal new.status ≡ true)
unfolding get_request
terminal_forever request_id old here found terminal = (old, found, terminal)
terminal_forever request_id old (step {db = before} env call r) found terminal =
    let (middle, found', terminal') = terminal_forever request_id old r found terminal in
    let (new, found'', moved) = serve_moves env call before request_id middle found' in
    (new, found'', terminal_stays middle.status new.status moved terminal')
terminal_forever request_id old (joined {db = before} env hash name email role r) found terminal =
    let (middle, found', terminal') = terminal_forever request_id old r found terminal in
    let (new, found'', moved) =
      moves-Moved before (serve_register env hash name email role before).1 request_id middle
        (serve_register-Moved env hash name email role before) found' in
    (new, found'', terminal_stays middle.status new.status moved terminal')
