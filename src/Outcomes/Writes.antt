-- ===== src/Outcomes/Writes.antt =====
-- The outcome of the pairs of writes and of a log entry.
use asset_pilot_fastapi.Repositories.Laws.{
  update_item-ok, insert_log-ok, insert_request-ok, update_request-ok,
}
use asset_pilot_fastapi.Table.{find, replace}
use asset_pilot_fastapi.Result.Ensures.{returns, all_Ensures, bind-Ensures, Ensures}
use asset_pilot_fastapi.Database.{item_key, request_key, Db, Env}
use asset_pilot_fastapi.Services.DeviceLog.{log_row, LogArgs, append}
use asset_pilot_fastapi.Models.{DeviceLog, Item, Request}
use asset_pilot_fastapi.Services.Assignment.{save_direct_assignment, save_assignment}
use asset_pilot_fastapi.Services.Shipping.{save_both}
use asset_pilot_fastapi.Prelude.{arith, [], ◌∷◌, none, ◌++◌, ◌≡◌, ℕ}

-- What `request` and `item` have become, and that nothing else has changed.
abbrev pub SavedBoth : Request → Item → Db → Request × Db → Type 0
SavedBoth r i db p =
    (p.0 ≡ record r { updated_at = p.0.updated_at })
    × (t : ℕ) × (p.1 ≡ record db {
      requests = replace request_key p.0 db.requests;
      items = replace item_key (record i { updated_at = t }) db.items;
    })

pub save_both-SavedBoth :
    (env : Env) (r : Request) (i : Item) (db : Db)
    → Ensures (SavedBoth r i db) (save_both env r i db)
unfolding save_both
save_both-SavedBoth env r i db = bind-Ensures _ _ λ p wrote. bind-Ensures _ _ λ q wrote_item.
    let (stamped, database, free) = update_request-ok env r db {row = p.0} {db' = p.1} wrote in
    let (item_stamped, item_database, unique) =
      update_item-ok env i p.1 {row = q.0} {db' = q.1} wrote_item in
    returns (stamped, q.0.updated_at, ground arith)

pub save_assignment-SavedBoth :
    (env : Env) (r : Request) (i : Item) (db : Db)
    → Ensures (SavedBoth r i db) (save_assignment env r i db)
unfolding save_assignment
save_assignment-SavedBoth env r i db = bind-Ensures _ _ λ p wrote. bind-Ensures _ _ λ q wrote_item.
    let (stamped, database, free) = update_request-ok env r db {row = p.0} {db' = p.1} wrote in
    let (item_stamped, item_database, unique) =
      update_item-ok env i p.1 {row = q.0} {db' = q.1} wrote_item in
    returns (stamped, q.0.updated_at, ground arith)

abbrev pub SavedDirect : Request → Item → Db → Request × Db → Type 0
SavedDirect r i db p =
    (p.0 ≡ r)
    × (find request_key r.id db.requests ≡ none)
    × (t : ℕ) × (p.1 ≡ record db {
      requests = db.requests ++ r ∷ [];
      items = replace item_key (record i { updated_at = t }) db.items;
    })

pub save_direct_assignment-SavedDirect :
    (env : Env) (r : Request) (i : Item) (db : Db)
    → Ensures (SavedDirect r i db) (save_direct_assignment env r i db)
unfolding save_direct_assignment
save_direct_assignment-SavedDirect env r i db = bind-Ensures _ _ λ p wrote.
    bind-Ensures _ _ λ q wrote_item.
      let (same_row, database, fresh, free) =
        insert_request-ok r db {row = p.0} {db' = p.1} wrote in
      let (item_stamped, item_database, unique) =
        update_item-ok env i p.1 {row = q.0} {db' = q.1} wrote_item in
      returns (same_row, fresh, q.0.updated_at, ground arith)

-- One entry at the end of the log.
abbrev pub Logged : Env → LogArgs → Db → DeviceLog × Db → Type 0
Logged env a db p = p.1 ≡ record db { device_logs = db.device_logs ++ log_row env a db ∷ [] }

pub append-Logged :
    (env : Env) (a : LogArgs) (db : Db) → Ensures (Logged env a db) (append env a db)
unfolding append
append-Logged env a db =
    all_Ensures _ λ p e. (insert_log-ok (log_row env a db) db {row = p.0} {db' = p.1} e).1
