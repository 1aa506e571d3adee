-- ===== src/Invariant/Writes.antt =====
-- Each write of a row keeps the invariant.
use asset_pilot_fastapi.Invariant.Index.{free_of_stamp, replace-IndexHolds, append-IndexHolds}
use asset_pilot_fastapi.Result.{ok}
use asset_pilot_fastapi.Repositories.{
  update_extension_request, update_support_request, insert_user, update_user, insert_item,
  get_request, update_request, update_item, insert_request,
}
use asset_pilot_fastapi.Repositories.Laws.{
  update_support_request-ok, update_extension_request-ok, insert_user-ok, update_user-ok,
  insert_item-ok, update_request-ok, update_item-ok, insert_request-ok, insert_log-ok,
}
use asset_pilot_fastapi.Services.DeviceLog.{LogArgs, log_row, append}
use asset_pilot_fastapi.Prelude.{arith, ℕ, ◌≡◌}
use asset_pilot_fastapi.Models.{SupportRequest, User, ExtensionRequest, Item, DeviceLog, Request}
use asset_pilot_fastapi.Table.Laws.{
  append-HasUniqueKeys, replace-HasUniqueKeys, find-replace, find-append,
}
use asset_pilot_fastapi.Database.{support_key, item_key, log_key, Db, Env, request_key}
use asset_pilot_fastapi.Invariant.{some, IsBookedIfAssigned, IsValid}

module _ (env : Env) (db : Db) (valid : IsValid db) where
  pub update_request-IsValid :
      (r : Request) {row : Request} {db' : Db}
      → IsBookedIfAssigned r
      → update_request env r db ≡ ok (row, db')
      → IsValid db'
  update_request-IsValid r {row} {db'} booked h =
      let (stamped, wrote, free) = update_request-ok env r db h in
      rw wrote (record {
        item_keys = valid.item_keys;
        support_keys = valid.support_keys;
        request_keys = replace-HasUniqueKeys request_key row db.requests valid.request_keys;
        log_keys = valid.log_keys;
        index_holds =
            replace-IndexHolds row db.requests valid.index_holds
              (rw stamped (free_of_stamp r row.updated_at db.requests free));
        booked =
            λ k x e. ground (arith, find-replace request_key row k db.requests, valid.booked k x);
      })

  pub insert_request-IsValid :
      (r : Request) {row : Request} {db' : Db}
      → IsBookedIfAssigned r
      → insert_request r db ≡ ok (row, db')
      → IsValid db'
  insert_request-IsValid r {row} {db'} booked h =
      let (same_row, wrote, new_key, free) = insert_request-ok r db h in
      rw wrote (record {
        item_keys = valid.item_keys;
        support_keys = valid.support_keys;
        request_keys = append-HasUniqueKeys request_key r db.requests new_key valid.request_keys;
        log_keys = valid.log_keys;
        index_holds = append-IndexHolds r db.requests valid.index_holds free;
        booked = λ k x e. ground (arith, find-append request_key r k db.requests, valid.booked k x);
      })

  pub update_item-IsValid :
      (r : Item) {row : Item} {db' : Db} → update_item env r db ≡ ok (row, db') → IsValid db'
  update_item-IsValid r {row} {db'} h =
      let (stamped, wrote, free) = update_item-ok env r db h in
      rw wrote (record {
        item_keys = replace-HasUniqueKeys item_key row db.items valid.item_keys;
        support_keys = valid.support_keys;
        request_keys = valid.request_keys;
        log_keys = valid.log_keys;
        index_holds = valid.index_holds;
        booked = valid.booked;
      })

  pub append-IsValid :
      (a : LogArgs) {entry : DeviceLog} {db' : Db} → append env a db ≡ ok (entry, db') → IsValid db'
  unfolding append
  append-IsValid a {entry} {db'} h =
      let (same_row, wrote, new_key) = insert_log-ok (log_row env a db) db h in
      rw wrote (record {
        item_keys = valid.item_keys;
        support_keys = valid.support_keys;
        request_keys = valid.request_keys;
        log_keys =
            append-HasUniqueKeys log_key (log_row env a db) db.device_logs new_key valid.log_keys;
        index_holds = valid.index_holds;
        booked = valid.booked;
      })

  pub update_support_request-IsValid :
      (s : SupportRequest) {row : SupportRequest} {db' : Db}
      → update_support_request env s db ≡ ok (row, db')
      → IsValid db'
  update_support_request-IsValid s {row} {db'} h =
      rw (update_support_request-ok env s db {row = row} {db' = db'} h).1 (record {
        item_keys = valid.item_keys;
        support_keys = replace-HasUniqueKeys support_key row db.support_requests valid.support_keys;
        request_keys = valid.request_keys;
        log_keys = valid.log_keys;
        index_holds = valid.index_holds;
        booked = valid.booked;
      })

  pub update_extension_request-IsValid :
      (e : ExtensionRequest) {row : ExtensionRequest} {db' : Db}
      → update_extension_request env e db ≡ ok (row, db')
      → IsValid db'
  update_extension_request-IsValid e {row} {db'} h =
      rw (update_extension_request-ok env e db h).1 (record {
        item_keys = valid.item_keys;
        support_keys = valid.support_keys;
        request_keys = valid.request_keys;
        log_keys = valid.log_keys;
        index_holds = valid.index_holds;
        booked = valid.booked;
      })

  pub update_user-IsValid :
      (u : User) {row : User} {db' : Db} → update_user env u db ≡ ok (row, db') → IsValid db'
  update_user-IsValid u {row} {db'} h = rw (update_user-ok env u db h).1 (record {
    item_keys = valid.item_keys;
    support_keys = valid.support_keys;
    request_keys = valid.request_keys;
    log_keys = valid.log_keys;
    index_holds = valid.index_holds;
    booked = valid.booked;
  })

  pub insert_user-IsValid :
      (u : User) {row : User} {db' : Db} → insert_user u db ≡ ok (row, db') → IsValid db'
  insert_user-IsValid u {row} {db'} h = rw (insert_user-ok u db h).1 (record {
    item_keys = valid.item_keys;
    support_keys = valid.support_keys;
    request_keys = valid.request_keys;
    log_keys = valid.log_keys;
    index_holds = valid.index_holds;
    booked = valid.booked;
  })

  pub insert_item-IsValid :
      (i : Item) {row : Item} {db' : Db} → insert_item i db ≡ ok (row, db') → IsValid db'
  insert_item-IsValid i {row} {db'} h =
      let (same_row, wrote, new_key, free) = insert_item-ok i db h in
      rw wrote (record {
        item_keys = append-HasUniqueKeys item_key i db.items new_key valid.item_keys;
        support_keys = valid.support_keys;
        request_keys = valid.request_keys;
        log_keys = valid.log_keys;
        index_holds = valid.index_holds;
        booked = valid.booked;
      })

  -- A request that is found is booked if it is assigned.
  pub found-IsBookedIfAssigned :
      (k : ℕ) {r : Request} → get_request k db ≡ some r → IsBookedIfAssigned r
  unfolding get_request
  found-IsBookedIfAssigned k {r} e = valid.booked k r e
