-- ===== src/Services/Users.antt =====
-- app/services/user_service.py: creating users, changing roles, and deactivation with its hard block.
-- The password hash of a new user is bcrypt's, and is taken as an argument.
use asset_pilot_fastapi.Prelude.{
  formatted, ℕ, String, str_eq, ◌==◌, Bool, true, false, ◌&&◌, ◌||◌, none, some, is_id, any, length,
}
use asset_pilot_fastapi.Result.{Result, ◌>>=◌, ◌>>◌, raise_if, or_raise, conflict, not_found}
use asset_pilot_fastapi.Enums.{UserRole, RequestStatus}
use asset_pilot_fastapi.Models.{User, Item, Request}
use asset_pilot_fastapi.Database.{Db, Env}
use asset_pilot_fastapi.Repositories.{get_user, insert_user, update_user}

-- `user_repository.get_by_email(email) is not None`
unfoldable pub has_email : String → Db → Bool
has_email email db = any (λ (u : User). str_eq u.email email) db.users

-- `_NON_TERMINAL_REQUEST_STATUSES`
abbrev pub is_non_terminal : RequestStatus → Bool
is_non_terminal RequestStatus.requested = true
is_non_terminal RequestStatus.pending_mgr_approval = true
is_non_terminal RequestStatus.pending_it_approval = true
is_non_terminal RequestStatus.assigned = true
is_non_terminal _ = false

abbrev pub holds : ℕ → Item → Bool
holds user_id i = is_id i.current_owner_id user_id

abbrev pub has_open : ℕ → Request → Bool
has_open user_id r = r.requester_id == user_id && is_non_terminal r.status

unfoldable pub has_active_devices_or_requests : ℕ → Db → Bool
has_active_devices_or_requests user_id db =
    any (holds user_id) db.items || any (has_open user_id) db.requests

unfoldable pub get_user_or_404 : ℕ → Db → Result User
get_user_or_404 user_id db = or_raise (get_user user_id db) (not_found "User not found.")

unfoldable pub create_user : Env → String → String → String → UserRole → Db → Result (User × Db)
create_user env password_hash name email role db = do
  raise_if (has_email email db)
      (conflict (formatted "A user with email '" email "' already exists."))
  insert_user
      (record {
        id = env.new_id (length db.users);
        name = name;
        email = email;
        password_hash = some password_hash;
        role = role;
        manager_id = none;
        is_active = true;
        created_at = env.transaction_time;
        updated_at = env.transaction_time;
      })
      db

unfoldable pub change_role : Env → ℕ → UserRole → Db → Result (User × Db)
unfolding get_user_or_404
change_role env user_id role db = do
  user ← get_user_or_404 user_id db
  update_user env (record user { role = role }) db

unfoldable pub deactivate : Env → ℕ → Db → Result (User × Db)
unfolding get_user_or_404
deactivate env user_id db = do
  user ← get_user_or_404 user_id db
  raise_if (has_active_devices_or_requests user.id db)
      (conflict "Cannot deactivate a user who currently holds a device or has an open request.")
  update_user env (record user { is_active = false }) db

unfoldable pub activate : Env → ℕ → Db → Result (User × Db)
unfolding get_user_or_404
activate env user_id db = do
  user ← get_user_or_404 user_id db
  update_user env (record user { is_active = true }) db
