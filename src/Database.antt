-- ===== src/Database.antt =====
-- The database behind the repositories: its tables (app/models/), what the code takes from the
-- outside during one call (`Env`), and the constraints of the schema
-- (alembic/versions/19fa64831348_create_itam_schema.py) that a flush can violate.
use asset_pilot_fastapi.Prelude.{
  ℕ, Bool, true, false, not, ◌&&◌, ◌||◌, Option, none, some, List, ◌==◌, same, is_some, str_eq,
}
use asset_pilot_fastapi.Enums.{RequestStatus, RequestStatus-discrete}
use asset_pilot_fastapi.Models.{
  User, ItemCategory, Item, Request, SupportRequest, ExtensionRequest, HandoverRequest, DeviceLog,
}
use asset_pilot_fastapi.Table.{find}

pub record Db : Type 0 where
  pub users : List User
  pub categories : List ItemCategory
  pub items : List Item
  pub requests : List Request
  pub support_requests : List SupportRequest
  pub extension_requests : List ExtensionRequest
  pub handover_requests : List HandoverRequest
  pub device_logs : List DeviceLog

-- What a call reads from outside: Postgres' `now()` of its transaction, the results of its calls of
-- `datetime.now(UTC)` in order, and the UUIDs drawn for a new row of each table and its QR code,
-- indexed by the number of rows already there.
pub record Env : Type 0 where
  pub transaction_time : ℕ
  pub clock : ℕ → ℕ
  pub new_id : ℕ → ℕ
  pub new_qr_code_token : ℕ → ℕ

abbrev pub user_key : User → ℕ
user_key u = u.id

abbrev pub category_key : ItemCategory → ℕ
category_key c = c.id

abbrev pub item_key : Item → ℕ
item_key i = i.id

abbrev pub request_key : Request → ℕ
request_key r = r.id

abbrev pub support_key : SupportRequest → ℕ
support_key s = s.id

abbrev pub extension_key : ExtensionRequest → ℕ
extension_key e = e.id

abbrev pub handover_key : HandoverRequest → ℕ
handover_key h = h.id

abbrev pub log_key : DeviceLog → ℕ
log_key l = l.id

-- A foreign key: the row is there, or the column is null.
abbrev pub refers {ℓ} : {A : Type ℓ} → (A → ℕ) → List A → Option ℕ → Bool
refers key rows none = true
refers key rows (some k) = is_some (find key k rows)

unfoldable pub request_refers : Db → Request → Bool
request_refers db r =
    refers user_key db.users (some r.requester_id)
    && refers category_key db.categories (some r.category_id)
    && refers item_key db.items r.assigned_item_id
    && refers user_key db.users r.manager_id
    && refers user_key db.users r.it_decided_by
    && refers user_key db.users r.cancelled_by
    && refers user_key db.users r.completed_by

unfoldable pub item_refers : Db → Item → Bool
item_refers db i =
    refers category_key db.categories (some i.category_id)
    && refers user_key db.users i.current_owner_id

unfoldable pub support_refers : Db → SupportRequest → Bool
support_refers db s =
    refers item_key db.items (some s.item_id)
    && refers user_key db.users (some s.requester_id)
    && refers request_key db.requests s.request_id
    && refers item_key db.items s.swapped_to_item_id
    && refers user_key db.users s.resolved_by

unfoldable pub extension_refers : Db → ExtensionRequest → Bool
extension_refers db e =
    refers request_key db.requests (some e.original_request_id)
    && refers user_key db.users (some e.requester_id)
    && refers user_key db.users e.manager_id
    && refers user_key db.users e.it_decided_by

unfoldable pub log_refers : Db → DeviceLog → Bool
log_refers db l =
    refers item_key db.items (some l.item_id)
    && refers user_key db.users l.actor_id
    && refers request_key db.requests l.request_id
    && refers support_key db.support_requests l.support_request_id
    && refers extension_key db.extension_requests l.extension_request_id
    && refers handover_key db.handover_requests l.handover_request_id

-- The statuses that the partial unique index leaves out: rejected, completed, cancelled.
abbrev pub is_terminal : RequestStatus → Bool
is_terminal RequestStatus.rejected = true
is_terminal RequestStatus.completed = true
is_terminal RequestStatus.cancelled = true
is_terminal _ = false

-- SQL's `=` of two nullable ids: never true of a null.
abbrev pub same_id : Option ℕ → Option ℕ → Bool
same_id (some a) (some b) = a == b
same_id _ _ = false

-- Two rows with one entry of the index `uq_one_active_request_per_item`, on the item and the status.
unfoldable pub collides : Request → Request → Bool
collides r x =
    not (r.id == x.id)
    && not (is_terminal r.status)
    && not (is_terminal x.status)
    && same_id r.assigned_item_id x.assigned_item_id
    && same RequestStatus-discrete r.status x.status

-- The unique columns `item.serial_no`, `item.qr_code_token` and `user.email`.
unfoldable pub item_collides : Item → Item → Bool
item_collides i x =
    not (i.id == x.id) && (str_eq i.serial_no x.serial_no || i.qr_code_token == x.qr_code_token)

unfoldable pub user_collides : User → User → Bool
user_collides u x = not (u.id == x.id) && str_eq u.email x.email
