-- ===== src/Invariant/Shipping.antt =====
-- The operations of the shipping service keep the invariant.
use asset_pilot_fastapi.Invariant.Writes.{found-IsBookedIfAssigned}
use asset_pilot_fastapi.Enums.{DeviceStatus}
use asset_pilot_fastapi.Invariant.Keeps.{
  update_item-Keeps, update_request-Keeps, append-Keeps, update_support_request-Keeps, Keeps,
}
use asset_pilot_fastapi.Models.{Item, SupportRequest}
use asset_pilot_fastapi.Invariant.{IsBookedIfAssigned, Request, IsValid}
use asset_pilot_fastapi.Database.{Db, Env}
use asset_pilot_fastapi.Services.Shipping.{
  auto_close_open_support, confirm_delivery, save_both, auto_close_ticket, complete_return,
  log_return, ship, auto_close_tickets,
}
use asset_pilot_fastapi.Prelude.{[], suc, ◌∷◌, String, List, ℕ}
use asset_pilot_fastapi.Result.Ensures.{
  raise_if-Ensures, bind-Ensures, or_raise-Ensures, then-Ensures, returns,
}

module _ (env : Env) (db : Db) (valid : IsValid db) where
  save_both-Keeps :
      (request : Request) (item : Item)
      → IsBookedIfAssigned request
      → Keeps (save_both env request item db)
  unfolding save_both
  save_both-Keeps request item booked =
      then-Ensures _ _ (update_request-Keeps env db valid request booked) λ p valid1.
        then-Ensures _ _ (update_item-Keeps env p.1 valid1 item) λ q valid2. returns valid2

  pub ship-Keeps :
      (request_id : ℕ) (ship_tracking_url : String) (actor_id : ℕ)
      → Keeps (ship env request_id ship_tracking_url actor_id db)
  unfolding ship
  ship-Keeps request_id ship_tracking_url actor_id = or_raise-Ensures _ _ _ λ request found.
      raise_if-Ensures _ _ _ λ wfh. bind-Ensures _ _ λ item item_found.
        raise_if-Ensures _ _ _ λ is_assigned.
          then-Ensures _ _
            (save_both-Keeps _ _ (found-IsBookedIfAssigned env db valid request_id found))
            λ p valid2. then-Ensures _ _ (append-Keeps env p.1 valid2 _) λ q valid3. returns valid3

  pub confirm_delivery-Keeps :
      (request_id actor_id : ℕ) → Keeps (confirm_delivery env request_id actor_id db)
  unfolding confirm_delivery
  confirm_delivery-Keeps request_id actor_id = or_raise-Ensures _ _ _ λ request found.
      bind-Ensures _ _ λ item item_found. raise_if-Ensures _ _ _ λ pending.
        then-Ensures _ _
          (save_both-Keeps _ _ (found-IsBookedIfAssigned env db valid request_id found))
          λ p valid2. then-Ensures _ _ (append-Keeps env p.1 valid2 _) λ q valid3. returns valid3

  log_return-Keeps :
      (item_id request_id : ℕ) (from_status next_status : DeviceStatus) (actor_id : ℕ)
      → Keeps (log_return env item_id request_id from_status next_status actor_id db)
  unfolding log_return
  log_return-Keeps item_id request_id from_status next_status actor_id =
      then-Ensures _ _ (append-Keeps env db valid _)
        λ p valid1. then-Ensures _ _ (append-Keeps env p.1 valid1 _) λ q valid2. returns valid2

  auto_close_ticket-Keeps :
      (item_id i : ℕ) (ticket : SupportRequest) → Keeps (auto_close_ticket env item_id i ticket db)
  unfolding auto_close_ticket
  auto_close_ticket-Keeps item_id i ticket =
      then-Ensures _ _ (update_support_request-Keeps env db valid _)
        λ p valid1. then-Ensures _ _ (append-Keeps env p.1 valid1 _) λ q valid2. returns valid2

auto_close_tickets-Keeps :
    (env : Env) (item_id i : ℕ) (tickets : List SupportRequest) (db : Db)
    → IsValid db
    → Keeps (auto_close_tickets env item_id i tickets db)
unfolding auto_close_tickets
auto_close_tickets-Keeps env item_id i [] db valid = returns valid
auto_close_tickets-Keeps env item_id i (ticket ∷ tickets) db valid =
    then-Ensures _ _ (auto_close_ticket-Keeps env db valid item_id i ticket)
      λ p valid1. auto_close_tickets-Keeps env item_id (suc i) tickets p.1 valid1

module _ (env : Env) (db : Db) (valid : IsValid db) where
  pub complete_return-Keeps :
      (request_id : ℕ) (next_status : DeviceStatus) (actor_id : ℕ)
      → Keeps (complete_return env request_id next_status actor_id db)
  unfolding complete_return auto_close_open_support
  complete_return-Keeps request_id next_status actor_id = or_raise-Ensures _ _ _ λ request found.
      bind-Ensures _ _ λ item item_found. raise_if-Ensures _ _ _ λ eligible.
        then-Ensures _ _ (save_both-Keeps env db valid _ _ (λ s. cc)) λ p valid2.
          then-Ensures _ _ (log_return-Keeps env p.1 valid2 _ _ _ _ _) λ q valid3.
            then-Ensures _ _ (auto_close_tickets-Keeps env _ _ _ q.1 valid3)
              λ u valid4. returns valid4
