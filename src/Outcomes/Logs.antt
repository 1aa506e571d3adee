-- ===== src/Outcomes/Logs.antt =====
-- The log after each operation that returns: what was in it before, and zero or more entries.
use asset_pilot_fastapi.Repositories.Laws.{
  update_support_request-ok, update_user-ok, update_item-ok,
}
use asset_pilot_fastapi.Outcomes.Shipping.{confirm_delivery-Delivered, ship-Shipped}
use asset_pilot_fastapi.Outcomes.Extension.{reject-Refused, approve-Approved}
use asset_pilot_fastapi.Outcomes.Returns.{complete_return-Returned}
use asset_pilot_fastapi.Outcomes.Writes.{append-Logged}
use asset_pilot_fastapi.Outcomes.Assignment.{assign-Assigned, direct_assign-DirectlyAssigned}
use asset_pilot_fastapi.Services.Shipping.{confirm_delivery, ship, complete_return}
use asset_pilot_fastapi.Services.Assignment.{direct_assign, assign, update_booking_range}
use asset_pilot_fastapi.Repositories.{update_item, update_support_request, update_user}
use asset_pilot_fastapi.Result.{Result}
use asset_pilot_fastapi.Result.Ensures.{all_Ensures, map-Ensures, Ensures}
use asset_pilot_fastapi.Enums.{DeviceStatus}
use asset_pilot_fastapi.Services.DeviceLog.{log_row, append, LogArgs}
use asset_pilot_fastapi.Models.{DeviceLog, Request, Item, SupportRequest, User}
use asset_pilot_fastapi.Database.{Db, Env}
use asset_pilot_fastapi.Services.Requests.{cancel, escalate_to_manager, reject}
use asset_pilot_fastapi.Services.Extension.{approve}
use asset_pilot_fastapi.Services.Extension
use asset_pilot_fastapi.Outcomes.Requests.{
  Rewritten, update_booking_range-Rewritten, cancel-Rewritten, escalate_to_manager-Rewritten,
  reject-Rewritten,
}
use asset_pilot_fastapi.Prelude.{
  ap, ◌∷◌, sym, ◌∙◌, ◌∙◌, [], arith, ◌≡◌, ◌++◌, ◌≡◌, List, Bool, String, Option, ℕ,
}
use mathlib.Core.List.{append-nil, append_assoc}

abbrev pub Grown : Db → Db → Type 0
Grown db db' = (entries : List DeviceLog) × (db'.device_logs ≡ db.device_logs ++ entries)

pub Grown-refl : (db db' : Db) → db'.device_logs ≡ db.device_logs → Grown db db'
Grown-refl db db' e = ([], e ∙ sym (append-nil db.device_logs))

pub Grown-trans : (db db1 db2 : Db) → Grown db db1 → Grown db1 db2 → Grown db db2
Grown-trans db db1 db2 (xs, e) (ys, e') =
    (xs ++ ys, ground (arith, append_assoc db.device_logs xs ys))

pub append-Grown :
    (env : Env) (a : LogArgs) (db : Db) → Ensures (λ p. Grown db p.1) (append env a db)
append-Grown env a db =
    map-Ensures _ (append-Logged env a db) λ p o. (log_row env a db ∷ [], ground (arith, o))

module _ (env : Env) (db : Db) where
  pub update_item-Grown : (i : Item) → Ensures (λ p. Grown db p.1) (update_item env i db)
  update_item-Grown i =
      all_Ensures _
        λ p e. Grown-refl db p.1 (ground (arith, update_item-ok env i db {row = p.0} {db' = p.1} e))

  pub update_user-Grown : (u : User) → Ensures (λ p. Grown db p.1) (update_user env u db)
  update_user-Grown u =
      all_Ensures _
        λ p e. Grown-refl db p.1 (ground (arith, update_user-ok env u db {row = p.0} {db' = p.1} e))

  pub update_support_request-Grown :
      (s : SupportRequest) → Ensures (λ p. Grown db p.1) (update_support_request env s db)
  update_support_request-Grown s = all_Ensures _ λ p e.
      Grown-refl db p.1
        (ground (arith, update_support_request-ok env s db {row = p.0} {db' = p.1} e))

  Rewritten-Grown :
      (m : Result (Request × Db)) (request_id : ℕ) (may : Request → Bool) (new : Request → Request)
      → Ensures (Rewritten request_id db may new) m
      → Ensures (λ p. Grown db p.1) m
  Rewritten-Grown m request_id may new h =
      map-Ensures m h λ p o. Grown-refl db p.1 (ground (arith, o.database))

  pub update_booking_range-Grown :
      (r from to : ℕ) → Ensures (λ p. Grown db p.1) (update_booking_range env r from to db)
  update_booking_range-Grown r from to =
      Rewritten-Grown _ r _ _ (update_booking_range-Rewritten env r from to db)

  pub reject-Grown :
      (r : ℕ) (reason : String) (it_note : Option String) (a : ℕ)
      → Ensures (λ p. Grown db p.1) (reject env r reason it_note a db)
  reject-Grown r reason it_note a =
      Rewritten-Grown _ r _ _ (reject-Rewritten env r reason it_note a db)

  pub cancel-Grown :
      (r : ℕ) (reason : String) (a : ℕ) → Ensures (λ p. Grown db p.1) (cancel env r reason a db)
  cancel-Grown r reason a = Rewritten-Grown _ r _ _ (cancel-Rewritten env r reason a db)

  pub escalate_to_manager-Grown :
      (r : ℕ) (m : Option ℕ) → Ensures (λ p. Grown db p.1) (escalate_to_manager env r m db)
  escalate_to_manager-Grown r m = Rewritten-Grown _ r _ _ (escalate_to_manager-Rewritten env r m db)

  pub assign-Grown :
      (r i from to : ℕ) (wfh : Bool) (a : ℕ)
      → Ensures (λ p. Grown db p.1) (assign env r i from to wfh a db)
  assign-Grown r i from to wfh a =
      map-Ensures _ (assign-Assigned env r i from to wfh a db)
        λ p o. (_ ∷ [], ap (λ (d : Db). d.device_logs) o.database)

  pub direct_assign-Grown :
      (i e from to a : ℕ) → Ensures (λ p. Grown db p.1) (direct_assign env i e from to a db)
  direct_assign-Grown i e from to a =
      map-Ensures _ (direct_assign-DirectlyAssigned env i e from to a db)
        λ p o. (_ ∷ [], ap (λ (d : Db). d.device_logs) o.database)

  pub ship-Grown :
      (r : ℕ) (url : String) (a : ℕ) → Ensures (λ p. Grown db p.1) (ship env r url a db)
  ship-Grown r url a =
      map-Ensures _ (ship-Shipped env r url a db)
        λ p o. (_ ∷ [], ap (λ (d : Db). d.device_logs) o.database)

  pub confirm_delivery-Grown : (r a : ℕ) → Ensures (λ p. Grown db p.1) (confirm_delivery env r a db)
  confirm_delivery-Grown r a =
      map-Ensures _ (confirm_delivery-Delivered env r a db)
        λ p o. (_ ∷ [], ap (λ (d : Db). d.device_logs) o.database)

  pub complete_return-Grown :
      (r : ℕ) (next : DeviceStatus) (a : ℕ)
      → Ensures (λ p. Grown db p.1) (complete_return env r next a db)
  complete_return-Grown r next a = map-Ensures _ (complete_return-Returned env r next a db) λ p o. (
    o.received ∷ o.completed ∷ o.closed_tickets.new_logs,
    ground (
      arith,
      o.closed_tickets.logs,
      append_assoc db.device_logs (o.received ∷ []) (o.completed ∷ []),
      append_assoc db.device_logs (o.received ∷ o.completed ∷ []) o.closed_tickets.new_logs,
    ),
  )

  pub approve-Grown :
      (x : ℕ) (it_note : Option String) (a : ℕ)
      → Ensures (λ p. Grown db p.1) (approve env x it_note a db)
  approve-Grown x it_note a =
      map-Ensures _ (approve-Approved env x it_note a db)
        λ p o. (_ ∷ [], ap (λ (d : Db). d.device_logs) o.database)

  pub refuse-Grown :
      (x : ℕ) (it_note : Option String) (a : ℕ)
      → Ensures (λ p. Grown db p.1) (Extension.reject env x it_note a db)
  refuse-Grown x it_note a =
      map-Ensures _ (reject-Refused env x it_note a db)
        λ p o. (_ ∷ [], ap (λ (d : Db). d.device_logs) o.database)
