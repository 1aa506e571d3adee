-- ===== src/Api/Guard.antt =====
-- app/api/v1/dependencies.py and the routers under `/admin`: who may call, and as whom.
use asset_pilot_fastapi.Security.{
  require_it_admin, get_current_user, TokenPayload, Settings, Libraries,
}
use asset_pilot_fastapi.Api.{
  dispatch, validation, commit, is_invalid, raise_if, ok, Error, false, Db, Option, Result, Env,
  true, Bool, String, Call, update_booking_range_call, assign_call, direct_assign_call, reject_call,
  cancel_call, escalate_call, ship_call, confirm_delivery_call, complete_return_call,
  approve_extension_call, reject_extension_call, start_support_call, resolve_support_call,
  create_item_call, edit_item_call, change_status_call, create_user_call, change_role_call,
  deactivate_call, activate_call,
}
use asset_pilot_fastapi.Result.{value_error, or_raise, ◌>>=◌, ◌>>◌}
use asset_pilot_fastapi.Prelude.{if◌then◌else◌, ℕ}

-- A call with its actor, for the endpoints that pass one on.
unfoldable pub with_actor : ℕ → Call → Call
with_actor a (assign_call r i from to wfh _) = assign_call r i from to wfh a
with_actor a (direct_assign_call i e from to _) = direct_assign_call i e from to a
with_actor a (reject_call r reason it_note _) = reject_call r reason it_note a
with_actor a (cancel_call r reason _) = cancel_call r reason a
with_actor a (ship_call r url _) = ship_call r url a
with_actor a (confirm_delivery_call r _) = confirm_delivery_call r a
with_actor a (complete_return_call r next _) = complete_return_call r next a
with_actor a (approve_extension_call x it_note _) = approve_extension_call x it_note a
with_actor a (reject_extension_call x it_note _) = reject_extension_call x it_note a
with_actor a (start_support_call s _) = start_support_call s a
with_actor a (resolve_support_call s resolution it_note to next _) =
    resolve_support_call s resolution it_note to next a
with_actor a (create_item_call name serial_no c owner_type client_name d _) =
    create_item_call name serial_no c owner_type client_name d a
with_actor a (edit_item_call i u _) = edit_item_call i u a
with_actor a (change_status_call i status it_note _) = change_status_call i status it_note a
with_actor a (update_booking_range_call r from to) = update_booking_range_call r from to
with_actor a (escalate_call r m) = escalate_call r m
with_actor a (create_user_call hash name email role) = create_user_call hash name email role
with_actor a (change_role_call u role) = change_role_call u role
with_actor a (deactivate_call u) = deactivate_call u
with_actor a (activate_call u) = activate_call u

-- The endpoints that take no `current_user` of their own.
unfoldable pub is_anonymous : Call → Bool
is_anonymous (update_booking_range_call r from to) = true
is_anonymous (escalate_call r m) = true
is_anonymous (create_user_call hash name email role) = true
is_anonymous (change_role_call u role) = true
is_anonymous (deactivate_call u) = true
is_anonymous (activate_call u) = true
is_anonymous _ = false

-- `uuid.UUID(current_user.subject)` in a handler.
unfoldable pub acting : Libraries → String → Call → Result Call
acting l subject call =
    if is_anonymous call
    then ok call
    else or_raise (l.parse_id subject) value_error >>= λ actor. ok (with_actor actor call)

module _ (l : Libraries) (settings : Settings) where
  -- The gate: a verified access token whose role is that of an administrator.
  unfoldable pub admit : ℕ → Option String → Result TokenPayload
  admit now credentials = do
    current_user ← get_current_user l settings now credentials
    require_it_admin current_user

  unfoldable pub guarded : Env → ℕ → Option String → Call → Db → Result Db
  guarded env now credentials call db = do
    admin ← admit now credentials
    raise_if (is_invalid call) (validation "Request validation failed.")
    own ← acting l admin.subject call
    dispatch env own db

  -- A request over HTTP: the header's credentials and a call, whose own actor is ignored.
  unfoldable pub serve_request : Env → ℕ → Option String → Call → Db → Option Error × Db
  unfolding guarded
  serve_request env now credentials call db = commit db (guarded env now credentials call db)
