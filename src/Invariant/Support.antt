-- ===== src/Invariant/Support.antt =====
-- The operations of the support service keep the invariant.
use asset_pilot_fastapi.Invariant.Writes.{found-IsBookedIfAssigned}
use asset_pilot_fastapi.Result.Ensures.{returns, then-Ensures, raise_if-Ensures, or_raise-Ensures}
use asset_pilot_fastapi.Enums.{DeviceStatus, SupportResolution, SupportType}
use asset_pilot_fastapi.Invariant.Keeps.{
  update_request-Keeps, update_item-Keeps, update_support_request-Keeps, append-Keeps, Keeps,
}
use asset_pilot_fastapi.Invariant.{some, IsValid, IsBookedIfAssigned}
use asset_pilot_fastapi.Models.{SupportRequest, Item, Request}
use asset_pilot_fastapi.Database.{Db, Env}
use asset_pilot_fastapi.Prelude.{String, Option, arith, ℕ}
use asset_pilot_fastapi.Services.Support.{
  save_swap, start_repair, resolve, start_by_type, log_swap, resolve_device, mark_lost,
  repair_in_place, swap, start,
}

module _ (env : Env) (db : Db) (valid : IsValid db) where
  start_repair-Keeps :
      (ticket : SupportRequest) (actor_id : ℕ) → Keeps (start_repair env ticket actor_id db)
  unfolding start_repair
  start_repair-Keeps ticket actor_id = or_raise-Ensures _ _ _ λ item item_found.
      then-Ensures _ _ (update_item-Keeps env db valid _)
        λ p valid1. then-Ensures _ _ (append-Keeps env p.1 valid1 _) λ q valid2. returns valid2

  start_by_type-Keeps :
      (type : SupportType) (ticket : SupportRequest) (actor_id : ℕ)
      → Keeps (start_by_type env type ticket actor_id db)
  unfolding start_by_type
  start_by_type-Keeps SupportType.damage ticket actor_id = start_repair-Keeps ticket actor_id
  start_by_type-Keeps SupportType.update ticket actor_id = returns valid
  start_by_type-Keeps SupportType.lost ticket actor_id = returns valid

  repair_in_place-Keeps :
      (ticket : SupportRequest) (item : Item) (actor_id : ℕ)
      → Keeps (repair_in_place env ticket item actor_id db)
  unfolding repair_in_place
  repair_in_place-Keeps ticket item actor_id = raise_if-Ensures _ _ _ λ in_repair.
      then-Ensures _ _ (update_item-Keeps env db valid _)
        λ p valid1. then-Ensures _ _ (append-Keeps env p.1 valid1 _) λ q valid2. returns valid2

  save_swap-Keeps :
      (request : Request) (old_item new_item : Item)
      → IsBookedIfAssigned request
      → Keeps (save_swap env request old_item new_item db)
  unfolding save_swap
  save_swap-Keeps request old_item new_item booked =
      then-Ensures _ _ (update_request-Keeps env db valid request booked) λ p valid1.
        then-Ensures _ _ (update_item-Keeps env p.1 valid1 old_item) λ q valid2.
          then-Ensures _ _ (update_item-Keeps env q.1 valid2 new_item) λ u valid3. returns valid3

  log_swap-Keeps :
      (ticket : SupportRequest) (request_id old_id new_id actor_id : ℕ)
      → Keeps (log_swap env ticket request_id old_id new_id actor_id db)
  unfolding log_swap
  log_swap-Keeps ticket request_id old_id new_id actor_id =
      then-Ensures _ _ (append-Keeps env db valid _)
        λ p valid1. then-Ensures _ _ (append-Keeps env p.1 valid1 _) λ q valid2. returns valid2

repointed-IsBookedIfAssigned :
    (r : Request) (k : ℕ)
    → IsBookedIfAssigned r
    → IsBookedIfAssigned (record r { assigned_item_id = some k })
repointed-IsBookedIfAssigned r k h e = ground (arith, h e)

module _ (env : Env) (db : Db) (valid : IsValid db) where
  swap-Keeps :
      (ticket : SupportRequest) (old_item : Item) (swapped_to : ℕ) (next_status : DeviceStatus)
      (actor_id : ℕ)
      → Keeps (swap env ticket old_item swapped_to next_status actor_id db)
  unfolding swap
  swap-Keeps ticket old_item swapped_to next_status actor_id = raise_if-Ensures _ _ _ λ other.
      or_raise-Ensures _ _ _ λ request_id tied. or_raise-Ensures _ _ _ λ new_item new_found.
        raise_if-Ensures _ _ _ λ category. raise_if-Ensures _ _ _ λ available.
          or_raise-Ensures _ _ _ λ request found.
            then-Ensures _ _
              (save_swap-Keeps env db valid _ _ _ (
                repointed-IsBookedIfAssigned request new_item.id
                  (found-IsBookedIfAssigned env db valid _ found)))
              λ p valid3. log_swap-Keeps env p.1 valid3 _ _ _ _ _

  mark_lost-Keeps :
      (ticket : SupportRequest) (item : Item) (actor_id : ℕ)
      → Keeps (mark_lost env ticket item actor_id db)
  unfolding mark_lost
  mark_lost-Keeps ticket item actor_id = or_raise-Ensures _ _ _ λ request_id tied.
      or_raise-Ensures _ _ _ λ request found.
        then-Ensures _ _ (update_item-Keeps env db valid _) λ p valid1.
          then-Ensures _ _ (update_request-Keeps env p.1 valid1 _ (λ s. cc))
            λ q valid2. then-Ensures _ _ (append-Keeps env q.1 valid2 _) λ u valid3. returns valid3

  resolve_device-Keeps :
      (resolution : SupportResolution) (ticket : SupportRequest) (item : Item)
      (swapped_to : Option ℕ) (next_status : Option DeviceStatus) (actor_id : ℕ)
      → Keeps (resolve_device env resolution ticket item swapped_to next_status actor_id db)
  unfolding resolve_device
  resolve_device-Keeps SupportResolution.remote_resolved ticket item swapped_to next_status
        actor_id =
      returns valid
  resolve_device-Keeps SupportResolution.repaired_in_place ticket item swapped_to next_status
        actor_id =
      repair_in_place-Keeps env db valid ticket item actor_id
  resolve_device-Keeps SupportResolution.swapped ticket item swapped_to next_status actor_id =
      or_raise-Ensures _ _ _ λ target target_given.
        or_raise-Ensures _ _ _ λ next next_given. swap-Keeps ticket item target next actor_id
  resolve_device-Keeps SupportResolution.marked_lost ticket item swapped_to next_status actor_id =
      mark_lost-Keeps ticket item actor_id

  pub start-Keeps :
      (support_request_id actor_id : ℕ) → Keeps (start env support_request_id actor_id db)
  unfolding start
  start-Keeps support_request_id actor_id = or_raise-Ensures _ _ _ λ ticket found.
      raise_if-Ensures _ _ _ λ open_ticket.
        then-Ensures _ _ (update_support_request-Keeps env db valid _) λ p valid1.
          then-Ensures _ _ (start_by_type-Keeps env p.1 valid1 _ _ _) λ q valid2. returns valid2

  pub resolve-Keeps :
      (support_request_id : ℕ) (resolution : SupportResolution) (it_note : Option String)
      (swapped_to : Option ℕ) (next_status : Option DeviceStatus) (actor_id : ℕ)
      → Keeps (resolve env support_request_id resolution it_note swapped_to next_status actor_id db)
  unfolding resolve
  resolve-Keeps support_request_id resolution it_note swapped_to next_status actor_id =
      or_raise-Ensures _ _ _ λ ticket found. raise_if-Ensures _ _ _ λ unresolved.
        or_raise-Ensures _ _ _ λ item item_found.
          then-Ensures _ _
            (resolve_device-Keeps resolution ticket item swapped_to next_status actor_id)
            λ p valid1. then-Ensures _ _ (update_support_request-Keeps env p.1 valid1 _) λ q valid2.
              then-Ensures _ _ (append-Keeps env q.1 valid2 _) λ u valid3. returns valid3
