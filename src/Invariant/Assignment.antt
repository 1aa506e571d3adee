-- ===== src/Invariant/Assignment.antt =====
-- The operations of the assignment service keep the invariant.
use asset_pilot_fastapi.Models.{Item}
use asset_pilot_fastapi.Invariant.Keeps.{
  append-Keeps, update_item-Keeps, insert_request-Keeps, update_request-Keeps, Keeps,
}
use asset_pilot_fastapi.Services.Assignment.{
  direct_request, assign, direct_assign, save_assignment, save_direct_assignment,
  update_booking_range,
}
use asset_pilot_fastapi.Invariant.{IsBookedIfAssigned, Request, Bool, IsValid}
use asset_pilot_fastapi.Database.{Db, Env}
use asset_pilot_fastapi.Prelude.{refl, arith, ℕ}
use asset_pilot_fastapi.Result.Ensures.{
  try-Ensures, then-Ensures, raise_if-Ensures, or_raise-Ensures, returns,
}

module _ (env : Env) (db : Db) (valid : IsValid db) where
  pub update_booking_range-Keeps :
      (request_id assigned_from assigned_to : ℕ)
      → Keeps (update_booking_range env request_id assigned_from assigned_to db)
  unfolding update_booking_range
  update_booking_range-Keeps request_id assigned_from assigned_to =
      or_raise-Ensures _ _ _ λ request found. raise_if-Ensures _ _ _ λ is_assigned.
        or_raise-Ensures _ _ _ λ item_id booked.
          raise_if-Ensures _ _ _ λ free. update_request-Keeps env db valid _ (λ s. ground arith)

  save_assignment-Keeps :
      (request : Request) (item : Item)
      → IsBookedIfAssigned request
      → Keeps (save_assignment env request item db)
  unfolding save_assignment
  save_assignment-Keeps request item booked =
      then-Ensures _ _ (update_request-Keeps env db valid request booked) λ p valid1.
        then-Ensures _ _ (update_item-Keeps env p.1 valid1 item) λ q valid2. returns valid2

  pub assign-Keeps :
      (request_id item_id assigned_from assigned_to : ℕ) (is_wfh : Bool) (actor_id : ℕ)
      → Keeps (assign env request_id item_id assigned_from assigned_to is_wfh actor_id db)
  unfolding assign
  assign-Keeps request_id item_id assigned_from assigned_to is_wfh actor_id =
      or_raise-Ensures _ _ _ λ request found. raise_if-Ensures _ _ _ λ pending.
        or_raise-Ensures _ _ _ λ item item_found. raise_if-Ensures _ _ _ λ available.
          raise_if-Ensures _ _ _ λ category. raise_if-Ensures _ _ _ λ free.
            try-Ensures _ _ _ (save_assignment-Keeps _ _ (λ s. refl)) λ p valid2.
              then-Ensures _ _ (append-Keeps env p.1 valid2 _) λ q valid3. returns valid3

  save_direct_assignment-Keeps :
      (request : Request) (item : Item)
      → IsBookedIfAssigned request
      → Keeps (save_direct_assignment env request item db)
  unfolding save_direct_assignment
  save_direct_assignment-Keeps request item booked =
      then-Ensures _ _ (insert_request-Keeps env db valid request booked) λ p valid1.
        then-Ensures _ _ (update_item-Keeps env p.1 valid1 item) λ q valid2. returns valid2

  pub direct_assign-Keeps :
      (item_id employee_id assigned_from assigned_to actor_id : ℕ)
      → Keeps (direct_assign env item_id employee_id assigned_from assigned_to actor_id db)
  unfolding direct_assign direct_request
  direct_assign-Keeps item_id employee_id assigned_from assigned_to actor_id =
      or_raise-Ensures _ _ _ λ item item_found. raise_if-Ensures _ _ _ λ client.
        raise_if-Ensures _ _ _ λ available. raise_if-Ensures _ _ _ λ free.
          or_raise-Ensures _ _ _ λ employee known. raise_if-Ensures _ _ _ λ active.
            try-Ensures _ _ _ (save_direct_assignment-Keeps _ _ (λ s. refl)) λ p valid2.
              then-Ensures _ _ (append-Keeps env p.1 valid2 _) λ q valid3. returns valid3
