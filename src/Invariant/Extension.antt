-- ===== src/Invariant/Extension.antt =====
-- The operations of the extension service keep the invariant.
use asset_pilot_fastapi.Invariant.Writes.{found-IsBookedIfAssigned}
use asset_pilot_fastapi.Result.Ensures.{returns, then-Ensures, raise_if-Ensures, or_raise-Ensures}
use asset_pilot_fastapi.Invariant.Keeps.{
  update_extension_request-Keeps, update_request-Keeps, append-Keeps, Keeps,
}
use asset_pilot_fastapi.Enums.{DeviceLogEvent}
use asset_pilot_fastapi.Invariant.{some, IsValid, IsBookedIfAssigned}
use asset_pilot_fastapi.Models.{ExtensionRequest, Request}
use asset_pilot_fastapi.Database.{Db, Env}
use asset_pilot_fastapi.Prelude.{String, arith, Option, ℕ}
use asset_pilot_fastapi.Services.Extension.{log_decision, approve, reject}

module _ (env : Env) (db : Db) (valid : IsValid db) where
  log_decision-Keeps :
      (event : DeviceLogEvent) (parent : Request) (updated : ExtensionRequest) (actor_id : ℕ)
      → Keeps (log_decision env event parent updated actor_id db)
  unfolding log_decision
  log_decision-Keeps event parent updated actor_id =
      or_raise-Ensures _ _ _
        λ item_id booked. then-Ensures _ _ (append-Keeps env db valid _) λ p valid1. returns valid1

-- An extension moves the end of a booking and leaves a booking one.
moved-IsBookedIfAssigned :
    (r : Request) (t : ℕ)
    → IsBookedIfAssigned r
    → IsBookedIfAssigned (record r { assigned_to = some t })
moved-IsBookedIfAssigned r t h e = ground (arith, h e)

module _ (env : Env) (db : Db) (valid : IsValid db) where
  pub approve-Keeps :
      (extension_request_id : ℕ) (it_note : Option String) (actor_id : ℕ)
      → Keeps (approve env extension_request_id it_note actor_id db)
  unfolding approve
  approve-Keeps extension_request_id it_note actor_id =
      or_raise-Ensures _ _ _ λ extension_request found. raise_if-Ensures _ _ _ λ pending.
        raise_if-Ensures _ _ _ λ allowed. or_raise-Ensures _ _ _ λ parent parent_found.
          then-Ensures _ _
            (update_request-Keeps env db valid _ (
              moved-IsBookedIfAssigned parent extension_request.extended_to (
                found-IsBookedIfAssigned env db valid extension_request.original_request_id
                  parent_found)))
            λ p valid1.
              then-Ensures _ _ (update_extension_request-Keeps env p.1 valid1 _)
                λ q valid2. log_decision-Keeps env q.1 valid2 _ _ _ _

  pub reject-Keeps :
      (extension_request_id : ℕ) (it_note : Option String) (actor_id : ℕ)
      → Keeps (reject env extension_request_id it_note actor_id db)
  unfolding reject
  reject-Keeps extension_request_id it_note actor_id =
      or_raise-Ensures _ _ _ λ extension_request found. raise_if-Ensures _ _ _ λ pending.
        or_raise-Ensures _ _ _ λ parent parent_found.
          then-Ensures _ _ (update_extension_request-Keeps env db valid _)
            λ p valid1. log_decision-Keeps env p.1 valid1 _ _ _ _
