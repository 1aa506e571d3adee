-- ===== src/Repositories.antt =====
-- app/repositories/: reads and writes of single rows. A write flushes the session and refreshes the
-- row, so it returns the row as the database then has it, or raises what the schema's constraints
-- make of it. A row's `updated_at` moves exactly when the flush finds the row changed.
pub mod Requests
pub mod Support
pub mod Queries
pub mod Laws
use asset_pilot_fastapi.Prelude.{
  ℕ, String, Bool, true, false, not, ◌||◌, Option, none, some, List, [], ◌∷◌, ◌++◌, if◌then◌else◌,
  any, same, is_some, ℕ_discrete, String-discrete, str_eq,
}
use asset_pilot_fastapi.Result.{Result, ok, err, integrity_error}
use asset_pilot_fastapi.Models.{
  User, ItemCategory, Item, Request, SupportRequest, ExtensionRequest, DeviceLog,
}
use asset_pilot_fastapi.Table.{find, replace}
use asset_pilot_fastapi.Database.{
  Db, Env, user_key, category_key, item_key, request_key, support_key, extension_key, log_key,
  request_refers, item_refers, support_refers, extension_refers, log_refers, collides,
  item_collides, user_collides,
}

pub User-discrete : Discrete User
User-discrete = hlevel (ℕ_discrete, String-discrete)

pub Item-discrete : Discrete Item
Item-discrete = hlevel (ℕ_discrete, String-discrete)

pub Request-discrete : Discrete Request
Request-discrete = hlevel (ℕ_discrete, String-discrete)

pub SupportRequest-discrete : Discrete SupportRequest
SupportRequest-discrete = hlevel (ℕ_discrete, String-discrete)

pub ExtensionRequest-discrete : Discrete ExtensionRequest
ExtensionRequest-discrete = hlevel (ℕ_discrete, String-discrete)

-- `onupdate=func.now()`: the stored time stays if the row to write is the stored one.
unfoldable pub flush_time {ℓ} : {A : Type ℓ} → Discrete A → (A → ℕ) → Env → Option A → A → ℕ
flush_time d updated_at env none row = env.transaction_time
flush_time d updated_at env (some old) row =
    if same d old row then updated_at old else env.transaction_time

unfoldable pub get_user : ℕ → Db → Option User
get_user k db = find user_key k db.users

unfoldable pub get_category : ℕ → Db → Option ItemCategory
get_category k db = find category_key k db.categories

unfoldable pub get_item : ℕ → Db → Option Item
get_item k db = find item_key k db.items

unfoldable pub get_request : ℕ → Db → Option Request
get_request k db = find request_key k db.requests

unfoldable pub get_support_request : ℕ → Db → Option SupportRequest
get_support_request k db = find support_key k db.support_requests

unfoldable pub get_extension_request : ℕ → Db → Option ExtensionRequest
get_extension_request k db = find extension_key k db.extension_requests

unfoldable pub update_request : Env → Request → Db → Result (Request × Db)
unfolding flush_time
update_request env r db =
    let row = record r {
      updated_at =
          flush_time Request-discrete (λ (x : Request). x.updated_at) env
            (find request_key r.id db.requests) r;
    } in
    if not (request_refers db r) || any (collides r) db.requests
    then err integrity_error
    else ok (row, record db { requests = replace request_key row db.requests })

unfoldable pub update_item : Env → Item → Db → Result (Item × Db)
unfolding flush_time
update_item env i db =
    let row = record i {
      updated_at =
          flush_time Item-discrete (λ (x : Item). x.updated_at) env (find item_key i.id db.items) i;
    } in
    if not (item_refers db i) || any (item_collides i) db.items
    then err integrity_error
    else ok (row, record db { items = replace item_key row db.items })

unfoldable pub update_support_request : Env → SupportRequest → Db → Result (SupportRequest × Db)
unfolding flush_time
update_support_request env s db =
    let row = record s {
      updated_at =
          flush_time SupportRequest-discrete (λ (x : SupportRequest). x.updated_at) env
            (find support_key s.id db.support_requests) s;
    } in
    if not (support_refers db s)
    then err integrity_error
    else ok (row, record db { support_requests = replace support_key row db.support_requests })

unfoldable pub update_extension_request :
    Env → ExtensionRequest → Db → Result (ExtensionRequest × Db)
unfolding flush_time
update_extension_request env e db =
    let row = record e {
      updated_at =
          flush_time ExtensionRequest-discrete (λ (x : ExtensionRequest). x.updated_at) env
            (find extension_key e.id db.extension_requests) e;
    } in
    if not (extension_refers db e)
    then err integrity_error
    else ok
        (row, record db { extension_requests = replace extension_key row db.extension_requests })

unfoldable pub update_user : Env → User → Db → Result (User × Db)
unfolding flush_time
update_user env u db =
    let row = record u {
      updated_at =
          flush_time User-discrete (λ (x : User). x.updated_at) env (find user_key u.id db.users) u;
    } in
    if any (user_collides u) db.users
    then err integrity_error
    else ok (row, record db { users = replace user_key row db.users })

-- An insertion fails on a primary key that is taken, too.
unfoldable pub insert_request : Request → Db → Result (Request × Db)
insert_request r db =
    if is_some (find request_key r.id db.requests)
      || (not (request_refers db r) || any (collides r) db.requests)
    then err integrity_error
    else ok (r, record db { requests = db.requests ++ r ∷ [] })

unfoldable pub insert_item : Item → Db → Result (Item × Db)
insert_item i db =
    if is_some (find item_key i.id db.items)
      || (not (item_refers db i) || any (item_collides i) db.items)
    then err integrity_error
    else ok (i, record db { items = db.items ++ i ∷ [] })

unfoldable pub insert_user : User → Db → Result (User × Db)
insert_user u db =
    if is_some (find user_key u.id db.users) || any (user_collides u) db.users
    then err integrity_error
    else ok (u, record db { users = db.users ++ u ∷ [] })

unfoldable pub insert_log : DeviceLog → Db → Result (DeviceLog × Db)
insert_log l db =
    if is_some (find log_key l.id db.device_logs) || not (log_refers db l)
    then err integrity_error
    else ok (l, record db { device_logs = db.device_logs ++ l ∷ [] })
