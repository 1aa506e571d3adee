-- ===== src/Properties/Support.antt =====
-- Support tickets: app/services/support_service.py.
use asset_pilot_fastapi.Outcomes.Swap.{swap-Swapped}
use asset_pilot_fastapi.Table.{replace}
use asset_pilot_fastapi.Repositories.Laws.{update_support_request-ok}
use asset_pilot_fastapi.Outcomes.Writes.{append-Logged}
use asset_pilot_fastapi.Table.Laws.{find-replace_found, find-replace, find-key}
use asset_pilot_fastapi.Outcomes.Support.{mark_lost-MarkedLost, repair_in_place-Repaired}
use asset_pilot_fastapi.Result.Ensures.{
  bind-Ensures, then-Ensures, of_Ensures, raise_if-Ensures, or_raise-Ensures, map-Ensures, returns,
  Ensures,
}
use asset_pilot_fastapi.Enums.{SupportStatus, DeviceStatus, SupportResolution}
use asset_pilot_fastapi.Models.{Request, Item, SupportRequest}
use asset_pilot_fastapi.Result.{conflict, err, ok, ◌>>=◌, raise_if, or_raise}
use asset_pilot_fastapi.Database.{request_key, support_key, item_key, Db, Env}
use asset_pilot_fastapi.Services.Support.{swap, get_ticket_or_404, resolve_device, resolve}
use asset_pilot_fastapi.Repositories.{get_support_request, get_item, get_request}
use asset_pilot_fastapi.Prelude.{==_refl, refl, arith, none, some, ◌≡◌, ◌≡◌, String, Option, ℕ}

-- If `swap` returns for a device that is stored: this old device, which is not the new one but of its category, is stored with the next status given and no owner; the new one was available and is stored as assigned to the requester; the tied request is stored with the new device and is otherwise as before but for `updated_at`.
pub swap-stored :
    (env : Env) (ticket : SupportRequest) (old_item : Item) (swapped_to : ℕ)
    (next_status : DeviceStatus) (actor_id : ℕ) (db : Db) (p : Unit {0} × Db)
    → get_item old_item.id db ≡ some old_item
    → swap env ticket old_item swapped_to next_status actor_id db ≡ ok p
    → (request_id : ℕ) × (request : Request) × (new_item : Item) × (t : ℕ) × (t1 : ℕ) × (t2 : ℕ)
      × (ticket.request_id ≡ some request_id)
      × (get_request request_id db ≡ some request)
      × (get_item swapped_to db ≡ some new_item)
      × (new_item.status ≡ DeviceStatus.available)
      × (new_item.category_id ≡ old_item.category_id)
      × (get_item old_item.id p.1
          ≡ some
              (record old_item { status = next_status; current_owner_id = none; updated_at = t }))
      × (get_item swapped_to p.1
          ≡ some (record new_item {
            status = DeviceStatus.assigned;
            current_owner_id = some request.requester_id;
            updated_at = t1;
          }))
      × (get_request request_id p.1
          ≡ some (record request { assigned_item_id = some swapped_to; updated_at = t2 }))
unfolding get_request get_item
swap-stored env ticket old_item swapped_to next_status actor_id db p old_found h =
    let o = of_Ensures (swap-Swapped env ticket old_item swapped_to next_status actor_id db) p h in
    let new_key = find-key item_key swapped_to db.items {x = o.new_item} o.new_found in
    let old_row = record old_item {
      status = next_status;
      current_owner_id = none;
      updated_at = o.old_time;
    } in
    let new_row = record o.new_item {
      status = DeviceStatus.assigned;
      current_owner_id = some o.request.requester_id;
      updated_at = o.new_time;
    } in
    (
      o.request_id,
      o.request,
      o.new_item,
      o.old_time,
      o.new_time,
      o.request_time,
      o.tied,
      o.request_found,
      o.new_found,
      o.available,
      o.same_category,
      ground (
        arith,
        o.items,
        o.distinct,
        new_key,
        find-replace item_key new_row old_item.id (replace item_key old_row db.items),
        find-replace_found item_key old_row old_item.id db.items old_found refl,
      ),
      ground (
        arith,
        o.items,
        o.distinct,
        new_key,
        o.new_found,
        find-replace item_key new_row swapped_to (replace item_key old_row db.items),
        find-replace item_key old_row swapped_to db.items,
        ==_refl swapped_to,
      ),
      ground (
        arith,
        o.requests,
        new_key,
        find-replace_found request_key
            (record o.request {
              assigned_item_id = some o.new_item.id;
              updated_at = o.request_time;
            })
            o.request_id db.requests o.request_found refl,
      ),
    )

-- No operation on a device writes a ticket.
resolve_device-same :
    (env : Env) (resolution : SupportResolution) (ticket : SupportRequest) (item : Item)
    (swapped_to : Option ℕ) (next_status : Option DeviceStatus) (actor_id : ℕ) (db : Db)
    → Ensures
        (λ p. p.1.support_requests ≡ db.support_requests)
        (resolve_device env resolution ticket item swapped_to next_status actor_id db)
unfolding resolve_device
resolve_device-same env SupportResolution.remote_resolved ticket item swapped_to next_status
      actor_id db =
    returns refl
resolve_device-same env SupportResolution.repaired_in_place ticket item swapped_to next_status
      actor_id db =
    map-Ensures _ (repair_in_place-Repaired env ticket item actor_id db)
      λ p o. ground (arith, o.changed.database)
resolve_device-same env SupportResolution.swapped ticket item swapped_to next_status actor_id db =
    or_raise-Ensures _ _ _ λ to e. or_raise-Ensures _ _ _ λ next e'.
      map-Ensures _ (swap-Swapped env ticket item to next actor_id db) λ p o. o.support_requests
resolve_device-same env SupportResolution.marked_lost ticket item swapped_to next_status actor_id
      db =
    map-Ensures _ (mark_lost-MarkedLost env ticket item actor_id db)
      λ p o. ground (arith, o.database)

-- What `resolve` stores of the ticket.
resolve-ok :
    (env : Env) (ticket_id : ℕ) (resolution : SupportResolution) (it_note : Option String)
    (swapped_to : Option ℕ) (next_status : Option DeviceStatus) (actor_id : ℕ) (db : Db)
    → Ensures
        (λ p.
          (get_support_request ticket_id p.1 ≡ some p.0)
          × (p.0.status ≡ SupportStatus.resolved)
          × (p.0.resolution ≡ some resolution)
          × (p.0.resolved_by ≡ some actor_id))
        (resolve env ticket_id resolution it_note swapped_to next_status actor_id db)
unfolding resolve get_support_request get_ticket_or_404
resolve-ok env ticket_id resolution it_note swapped_to next_status actor_id db =
    or_raise-Ensures _ _ _ λ ticket found. raise_if-Ensures _ _ _ λ unresolved.
      or_raise-Ensures _ _ _ λ item item_found.
        then-Ensures _ _
          (resolve_device-same env resolution ticket item swapped_to next_status actor_id db)
          λ p same_tickets. bind-Ensures _ _ λ q wrote.
            then-Ensures _ _ (append-Logged env _ q.1) λ u logged.
              let (stamped, database) =
                update_support_request-ok env _ p.1 {row = q.0} {db' = q.1} wrote in
              returns (
                ground (
                  arith,
                  logged,
                  find-replace_found support_key q.0 ticket_id db.support_requests found,
                ),
                ground arith,
                ground arith,
                ground arith,
              )

-- A ticket is resolved once: if `resolve` returns, the ticket stored is the one returned, resolved in the way and by the actor given, and a further call of `resolve` for it raises a conflict, whatever its arguments.
pub resolve-once :
    (env env' : Env) (ticket_id : ℕ) (resolution resolution' : SupportResolution)
    (it_note it_note' : Option String) (swapped_to swapped_to' : Option ℕ)
    (next_status next_status' : Option DeviceStatus) (actor_id actor_id' : ℕ) (db db' : Db)
    (ticket : SupportRequest)
    → resolve env ticket_id resolution it_note swapped_to next_status actor_id db ≡ ok (ticket, db')
    → (get_support_request ticket_id db' ≡ some ticket)
      × (ticket.status ≡ SupportStatus.resolved)
      × (ticket.resolution ≡ some resolution)
      × (ticket.resolved_by ≡ some actor_id)
      × (resolve env' ticket_id resolution' it_note' swapped_to' next_status' actor_id' db'
          ≡ err (conflict "This support request is already resolved."))
unfolding resolve get_ticket_or_404 or_raise raise_if ◌>>=◌
resolve-once env env' ticket_id resolution resolution' it_note it_note' swapped_to swapped_to'
      next_status next_status' actor_id actor_id' db db' ticket h =
    let (found, resolved, how, who) =
      of_Ensures (resolve-ok env ticket_id resolution it_note swapped_to next_status actor_id db)
        (ticket, db') h in
    (found, resolved, how, who, ground arith)
