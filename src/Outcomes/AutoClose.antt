-- ===== src/Outcomes/AutoClose.antt =====
-- What `_auto_close_open_support` of app/services/shipping_service.py has written if it returns.

use asset_pilot_fastapi.Table.{find, replace}
use asset_pilot_fastapi.Enums.{DeviceLogEvent-discrete, ActorRole, DeviceLogEvent, SupportStatus}
use asset_pilot_fastapi.Services.DeviceLog.{log_args, log_row}
use asset_pilot_fastapi.Table.Laws.{find-replace}
use asset_pilot_fastapi.Repositories.Laws.{update_support_request-ok}
use asset_pilot_fastapi.Outcomes.Writes.{append-Logged}
use asset_pilot_fastapi.Result.Ensures.{map-Ensures, then-Ensures, returns, bind-Ensures, Ensures}
use asset_pilot_fastapi.Database.{support_key, Env, Db}
use asset_pilot_fastapi.Models.{DeviceLog, SupportRequest}
use asset_pilot_fastapi.Services.Shipping.{auto_close_tickets, auto_close_ticket}
use asset_pilot_fastapi.Prelude.{
  same, ◌&&◌, ◌&&◌, Bool, not, ==_refl, refl, false, ◌==◌, some, [], ◌==◌, any, length, none, true,
  ◌++◌, suc, arith, ◌∷◌, sym, ◌≡◌, List, ℕ,
}
use mathlib.Core.List.{append-nil, append_assoc}

-- The entry of an automatic closing of a ticket of the device.
abbrev pub closes : ℕ → DeviceLog → Bool
closes item_id l =
    l.item_id == item_id
    && same DeviceLogEvent-discrete l.event_type DeviceLogEvent.support_auto_closed

-- What closing the listed tickets leaves: no other table changes, the log gets one entry of the device
-- for each ticket, the listed tickets are resolved and all others are as before.
pub record ClosedTickets (item_id : ℕ) (tickets : List SupportRequest) (db db' : Db) : Type 0 where
  pub same_requests : db'.requests ≡ db.requests
  pub same_items : db'.items ≡ db.items
  pub same_users : db'.users ≡ db.users
  pub new_logs : List DeviceLog
  pub logs : db'.device_logs ≡ db.device_logs ++ new_logs
  pub of_item : any (λ (l : DeviceLog). not (closes item_id l)) new_logs ≡ false
  pub one_each : length new_logs ≡ length tickets
  pub others :
      (k : ℕ)
      → any (λ (t : SupportRequest). t.id == k) tickets ≡ false
      → find support_key k db'.support_requests ≡ find support_key k db.support_requests
  pub closed :
      (k : ℕ) (s : SupportRequest)
      → any (λ (t : SupportRequest). t.id == k) tickets ≡ true
      → find support_key k db'.support_requests ≡ some s
      → (s.status ≡ SupportStatus.resolved) × (s.auto_closed ≡ true)

-- One ticket.
pub record ClosedTicket (item_id : ℕ) (ticket : SupportRequest) (db db' : Db) : Type 0 where
  pub row : SupportRequest
  pub entry : DeviceLog
  pub entry_closes : closes item_id entry ≡ true
  pub same_id : row.id ≡ ticket.id
  pub resolved : row.status ≡ SupportStatus.resolved
  pub auto_closed : row.auto_closed ≡ true
  pub database : db' ≡ record db {
    support_requests = replace support_key row db.support_requests;
    device_logs = db.device_logs ++ entry ∷ [];
  }

auto_close_ticket-ClosedTicket :
    (env : Env) (item_id i : ℕ) (ticket : SupportRequest) (db : Db)
    → Ensures (λ p. ClosedTicket item_id ticket db p.1) (auto_close_ticket env item_id i ticket db)
unfolding auto_close_ticket log_row
auto_close_ticket-ClosedTicket env item_id i ticket db = bind-Ensures _ _ λ p wrote.
    then-Ensures _ _ (append-Logged env _ p.1) λ q logged.
      let (stamped, database) = update_support_request-ok env _ db {row = p.0} {db' = p.1} wrote in
      returns (record {
        row = p.0;
        entry =
            log_row env
              (record (log_args item_id DeviceLogEvent.support_auto_closed none ActorRole.system) {
                support_request_id = some ticket.id;
              })
              p.1;
        entry_closes = ground (arith, ==_refl item_id);
        same_id = ground arith;
        resolved = ground arith;
        auto_closed = ground arith;
        database = ground (arith, logged);
      })

cons-ClosedTickets :
    (item_id : ℕ) (ticket : SupportRequest) (tickets : List SupportRequest) (db db1 db2 : Db)
    → ClosedTicket item_id ticket db db1
    → ClosedTickets item_id tickets db1 db2
    → ClosedTickets item_id (ticket ∷ tickets) db db2
cons-ClosedTickets item_id ticket tickets db db1 db2 first rest = record {
  same_requests = ground (arith, first.database, rest.same_requests);
  same_items = ground (arith, first.database, rest.same_items);
  same_users = ground (arith, first.database, rest.same_users);
  new_logs = first.entry ∷ rest.new_logs;
  logs = ground (
    arith,
    first.database,
    rest.logs,
    append_assoc db.device_logs (first.entry ∷ []) rest.new_logs,
  );
  of_item = ground (arith, first.entry_closes, rest.of_item);
  one_each = ground (arith, rest.one_each);
  others = λ k e. ground (
    arith,
    first.database,
    rest.others k,
    find-replace support_key first.row k db.support_requests,
  );
  closed = λ k s e found. ground (
    arith,
    first.database,
    rest.others k,
    rest.closed k s,
    find-replace support_key first.row k db.support_requests,
  );
}

pub auto_close_tickets-ClosedTickets :
    (env : Env) (item_id i : ℕ) (tickets : List SupportRequest) (db : Db)
    → Ensures
        (λ p. ClosedTickets item_id tickets db p.1)
        (auto_close_tickets env item_id i tickets db)
unfolding auto_close_tickets
auto_close_tickets-ClosedTickets env item_id i [] db = returns (record {
  same_requests = refl;
  same_items = refl;
  same_users = refl;
  new_logs = [];
  logs = sym (append-nil db.device_logs);
  of_item = refl;
  one_each = refl;
  others = λ k e. refl;
  closed = λ k s e found. cc;
})
auto_close_tickets-ClosedTickets env item_id i (ticket ∷ tickets) db =
    then-Ensures _ _ (auto_close_ticket-ClosedTicket env item_id i ticket db) λ p first.
      map-Ensures _ (auto_close_tickets-ClosedTickets env item_id (suc i) tickets p.1)
        λ q rest. cons-ClosedTickets item_id ticket tickets db p.1 q.1 first rest
