-- ===== src/Repositories/Laws.antt =====
-- What a write that goes through leaves behind.
use asset_pilot_fastapi.Prelude.{ℕ, true, ◌≡◌, false, [], ◌∷◌, ◌++◌, any, arith, none}
use asset_pilot_fastapi.Result.{ok}
use asset_pilot_fastapi.Models.{User, ExtensionRequest, SupportRequest, Item, Request, DeviceLog}
use asset_pilot_fastapi.Table.{find, replace}
use asset_pilot_fastapi.Database.{
  request_refers, support_key, extension_key, user_key, Db, Env, item_key, request_key, log_key,
  collides, item_collides,
}
use asset_pilot_fastapi.Repositories.{
  Request-discrete, flush_time, update_extension_request, update_support_request, insert_user,
  update_user, insert_item, update_request, update_item, insert_request, insert_log,
}

-- An UPDATE of a request writes the row, but for its `updated_at`, and no other table; and the row
-- then shares its index entry with no other.
pub update_request-ok :
    (env : Env) (r : Request) (db : Db) {row : Request} {db' : Db}
    → update_request env r db ≡ ok (row, db')
    → (row ≡ record r { updated_at = row.updated_at })
      × (db' ≡ record db { requests = replace request_key row db.requests })
      × (any (collides r) db.requests ≡ false)
unfolding update_request
update_request-ok env r db h = (ground arith, ground arith, ground arith)

pub update_item-ok :
    (env : Env) (r : Item) (db : Db) {row : Item} {db' : Db}
    → update_item env r db ≡ ok (row, db')
    → (row ≡ record r { updated_at = row.updated_at })
      × (db' ≡ record db { items = replace item_key row db.items })
      × (any (item_collides r) db.items ≡ false)
unfolding update_item
update_item-ok env r db h = (ground arith, ground arith, ground arith)

pub insert_request-ok :
    (r : Request) (db : Db) {row : Request} {db' : Db}
    → insert_request r db ≡ ok (row, db')
    → (row ≡ r)
      × (db' ≡ record db { requests = db.requests ++ r ∷ [] })
      × (find request_key r.id db.requests ≡ none)
      × (any (collides r) db.requests ≡ false)
unfolding insert_request
insert_request-ok r db h = (ground arith, ground arith, ground arith, ground arith)

pub insert_log-ok :
    (l : DeviceLog) (db : Db) {row : DeviceLog} {db' : Db}
    → insert_log l db ≡ ok (row, db')
    → (row ≡ l)
      × (db' ≡ record db { device_logs = db.device_logs ++ l ∷ [] })
      × (find log_key l.id db.device_logs ≡ none)
unfolding insert_log
insert_log-ok l db h = (ground arith, ground arith, ground arith)

pub update_support_request-ok :
    (env : Env) (s : SupportRequest) (db : Db) {row : SupportRequest} {db' : Db}
    → update_support_request env s db ≡ ok (row, db')
    → (row ≡ record s { updated_at = row.updated_at })
      × (db' ≡ record db { support_requests = replace support_key row db.support_requests })
unfolding update_support_request
update_support_request-ok env s db h = (ground arith, ground arith)

pub update_extension_request-ok :
    (env : Env) (e : ExtensionRequest) (db : Db) {row : ExtensionRequest} {db' : Db}
    → update_extension_request env e db ≡ ok (row, db')
    → (row ≡ record e { updated_at = row.updated_at })
      × (db' ≡ record db { extension_requests = replace extension_key row db.extension_requests })
unfolding update_extension_request
update_extension_request-ok env e db h = (ground arith, ground arith)

pub update_user-ok :
    (env : Env) (u : User) (db : Db) {row : User} {db' : Db}
    → update_user env u db ≡ ok (row, db')
    → (row ≡ record u { updated_at = row.updated_at })
      × (db' ≡ record db { users = replace user_key row db.users })
unfolding update_user
update_user-ok env u db h = (ground arith, ground arith)

pub insert_user-ok :
    (u : User) (db : Db) {row : User} {db' : Db}
    → insert_user u db ≡ ok (row, db')
    → (row ≡ u) × (db' ≡ record db { users = db.users ++ u ∷ [] })
unfolding insert_user
insert_user-ok u db h = (ground arith, ground arith)

pub insert_item-ok :
    (i : Item) (db : Db) {row : Item} {db' : Db}
    → insert_item i db ≡ ok (row, db')
    → (row ≡ i)
      × (db' ≡ record db { items = db.items ++ i ∷ [] })
      × (find item_key i.id db.items ≡ none)
      × (any (item_collides i) db.items ≡ false)
unfolding insert_item
insert_item-ok i db h = (ground arith, ground arith, ground arith, ground arith)

-- An UPDATE whose foreign keys hold and whose index entry is free goes through.
pub update_request-returns :
    (env : Env) (r : Request) (db : Db)
    → request_refers db r ≡ true
    → any (collides r) db.requests ≡ false
    → (time : ℕ) × (update_request env r db
        ≡ ok (
          record r { updated_at = time },
          record db { requests = replace request_key (record r { updated_at = time }) db.requests },
        ))
unfolding update_request flush_time
update_request-returns env r db refs free = (
  flush_time Request-discrete (λ (x : Request). x.updated_at) env
      (find request_key r.id db.requests) r,
  ground arith,
)
