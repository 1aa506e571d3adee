-- ===== src/Invariant/Requests.antt =====
-- The operations of the request service keep the invariant.
use asset_pilot_fastapi.Invariant.Keeps.{update_request-Keeps, Keeps}
use asset_pilot_fastapi.Services.Requests.{reject, cancel, escalate_to_manager}
use asset_pilot_fastapi.Invariant.{IsValid}
use asset_pilot_fastapi.Database.{Db, Env}
use asset_pilot_fastapi.Prelude.{String, Option, ℕ}
use asset_pilot_fastapi.Result.Ensures.{raise_if-Ensures, or_raise-Ensures}

module _ (env : Env) (db : Db) (valid : IsValid db) where
  pub reject-Keeps :
      (request_id : ℕ) (rejected_reason : String) (it_decision_note : Option String) (actor_id : ℕ)
      → Keeps (reject env request_id rejected_reason it_decision_note actor_id db)
  unfolding reject
  reject-Keeps request_id rejected_reason it_decision_note actor_id =
      or_raise-Ensures _ _ _ λ request found.
        raise_if-Ensures _ _ _ λ pending. update_request-Keeps env db valid _ (λ s. cc)

  pub cancel-Keeps :
      (request_id : ℕ) (rejected_reason : String) (actor_id : ℕ)
      → Keeps (cancel env request_id rejected_reason actor_id db)
  unfolding cancel
  cancel-Keeps request_id rejected_reason actor_id = or_raise-Ensures _ _ _ λ request found.
      raise_if-Ensures _ _ _ λ active. update_request-Keeps env db valid _ (λ s. cc)

  pub escalate_to_manager-Keeps :
      (request_id : ℕ) (manager_id : Option ℕ)
      → Keeps (escalate_to_manager env request_id manager_id db)
  unfolding escalate_to_manager
  escalate_to_manager-Keeps request_id manager_id = or_raise-Ensures _ _ _ λ request found.
      raise_if-Ensures _ _ _ λ pending. update_request-Keeps env db valid _ (λ s. cc)
