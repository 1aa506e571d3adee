-- ===== src/Properties/Users.antt =====
-- Deactivation and its hard block: app/services/user_service.py.
use asset_pilot_fastapi.Repositories.Laws.{update_user-ok}
use asset_pilot_fastapi.Table.{replace}
use asset_pilot_fastapi.Result.Ensures.{
  all_Ensures, raise_if-Ensures, or_raise-Ensures, Ensures, of_Ensures,
}
use asset_pilot_fastapi.Table.Laws.{find-replace_found, any-find, find-key}
use asset_pilot_fastapi.Result.{conflict, err, ok, ◌>>=◌, raise_if, or_raise}
use asset_pilot_fastapi.Models.{Request, Item, User}
use asset_pilot_fastapi.Database.{request_key, item_key, user_key, Db, Env}
use asset_pilot_fastapi.Services.Users.{
  has_open, holds, is_non_terminal, has_active_devices_or_requests, get_user_or_404, deactivate,
}
use asset_pilot_fastapi.Repositories.{get_request, get_item, get_user}
use asset_pilot_fastapi.Prelude.{
  ==_refl, inr, arith, inl, any, Bool-cases, false, some, ◌≡◌, ◌≡◌, ℕ,
}

-- A deactivation that goes through has passed the block, and changes the user alone.
pub deactivate-ok :
    (env : Env) (user_id : ℕ) (db : Db)
    → Ensures
        (λ p.
          (user : User) × (get_user user_id db ≡ some user)
          × (has_active_devices_or_requests user.id db ≡ false)
          × (p.0 ≡ record user { is_active = false; updated_at = p.0.updated_at })
          × (p.1 ≡ record db { users = replace user_key p.0 db.users }))
        (deactivate env user_id db)
unfolding deactivate get_user_or_404
deactivate-ok env user_id db = or_raise-Ensures _ _ _ λ user found. raise_if-Ensures _ _ _ λ free.
    all_Ensures _ λ p e.
      let (stamped, database) = update_user-ok env _ db {row = p.0} {db' = p.1} e in
      (user, found, free, stamped, database)

-- If `deactivate` returns, the user is stored as inactive, no device that is stored is owned by them, and no request that is stored as theirs is requested, pending or assigned.
pub deactivate-blocked :
    (env : Env) (user_id : ℕ) (db db' : Db) (result : User)
    → deactivate env user_id db ≡ ok (result, db')
    → (get_user user_id db' ≡ some result)
      × (result.is_active ≡ false)
      × ((item_id : ℕ) (item : Item)
          → get_item item_id db' ≡ some item
          → ¬ (item.current_owner_id ≡ some user_id))
      × ((request_id : ℕ) (request : Request)
          → get_request request_id db' ≡ some request
          → request.requester_id ≡ user_id
          → is_non_terminal request.status ≡ false)
unfolding get_user get_item get_request has_active_devices_or_requests
deactivate-blocked env user_id db db' result h =
    let (user, found, free, stamped, database) =
      of_Ensures (deactivate-ok env user_id db) (result, db') h in
    let key = find-key user_key user_id db.users {x = user} found in
    (
      ground (arith, stamped, database, find-replace_found user_key result user_id db.users found),
      ground (arith, stamped),
      λ item_id item item_found owned. ground (
        arith,
        free,
        database,
        key,
        any-find item_key (holds user_id) item_id db.items {x = item},
        ==_refl user_id,
      ),
      λ request_id request request_found theirs. ground (
        arith,
        free,
        database,
        key,
        any-find request_key (has_open user_id) request_id db.requests {x = request},
        ==_refl user_id,
      ),
    )

-- A user who owns a device that is stored cannot be deactivated, and the call raises a conflict.
pub deactivate-refused :
    (env : Env) (user_id item_id : ℕ) (db : Db) (user : User) (item : Item)
    → get_user user_id db ≡ some user
    → get_item item_id db ≡ some item
    → item.current_owner_id ≡ some user_id
    → deactivate env user_id db
      ≡ err
          (conflict "Cannot deactivate a user who currently holds a device or has an open request.")
unfolding get_user get_item deactivate get_user_or_404 has_active_devices_or_requests or_raise
    raise_if ◌>>=◌
deactivate-refused env user_id item_id db user item found item_found owned =
    elim (Bool-cases (any (holds user_id) db.items)) [
      | inl e ↦ ground (arith, find-key user_key user_id db.users {x = user} found)
      | inr e ↦ ground (
        arith,
        any-find item_key (holds user_id) item_id db.items {x = item} e item_found,
        ==_refl user_id,
      )
    ]
