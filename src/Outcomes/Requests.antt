-- ===== src/Outcomes/Requests.antt =====
-- The outcomes of the request service: one row of the requests changes and nothing else.
use asset_pilot_fastapi.Repositories.Laws.{update_request-ok}
use asset_pilot_fastapi.Table.{replace}
use asset_pilot_fastapi.Enums.{RejectedByEnum, MgrApprovalStatus, RequestStatus}
use asset_pilot_fastapi.Repositories.{update_request, get_user, get_request}
use asset_pilot_fastapi.Repositories.Requests.{status_is}
use asset_pilot_fastapi.Result.Ensures.{all_Ensures, raise_if-Ensures, or_raise-Ensures, Ensures}
use asset_pilot_fastapi.Services.Assignment.{update_booking_range}
use asset_pilot_fastapi.Database.{request_key, is_terminal, Env, Db}
use asset_pilot_fastapi.Models.{Request}
use asset_pilot_fastapi.Prelude.{
  arith, ◌≡◌, some, ◌≡◌, ◌&&◌, ◌&&◌, not, String, Bool, true, Option, ℕ,
}
use asset_pilot_fastapi.Services.Requests.{resolve_manager, escalate_to_manager, cancel, reject}

-- A call that only rewrites the request it has found.
pub record Rewritten (request_id : ℕ) (db : Db) (may : Request → Bool) (new : Request → Request)
    (p : Request × Db) : Type 0 where
  pub request : Request
  pub request_found : get_request request_id db ≡ some request
  pub allowed : may request ≡ true
  pub result : p.0 ≡ record (new request) { updated_at = p.0.updated_at }
  pub database : p.1 ≡ record db { requests = replace request_key p.0 db.requests }

-- What `reject` makes of a request.
abbrev pub rejected_request : Env → String → Option String → ℕ → Request → Request
rejected_request env reason it_note actor_id request = record request {
  status = RequestStatus.rejected;
  rejected_by = some RejectedByEnum.it_admin;
  rejected_reason = some reason;
  it_decision_note = it_note;
  it_decided_by = some actor_id;
  it_decided_at = some (env.clock 0);
}

abbrev pub cancelled_request : Env → String → ℕ → Request → Request
cancelled_request env reason actor_id request = record request {
  status = RequestStatus.cancelled;
  cancelled_by = some actor_id;
  cancelled_at = some (env.clock 0);
  rejected_by = some RejectedByEnum.it_admin_cancel;
  rejected_reason = some reason;
}

abbrev pub escalated_request : Option ℕ → Db → Request → Request
escalated_request manager_id db request = record request {
  requires_mgr_approval = true;
  mgr_approval_status = MgrApprovalStatus.pending;
  manager_id = resolve_manager manager_id (get_user request.requester_id db);
  status = RequestStatus.pending_mgr_approval;
}

abbrev pub is_pending_it : Request → Bool
is_pending_it request = status_is request.status RequestStatus.pending_it_approval

rewrite :
    (env : Env) (request_id : ℕ) (db : Db) (may : Request → Bool) (new : Request → Request)
    (request : Request)
    → get_request request_id db ≡ some request
    → may request ≡ true
    → Ensures (Rewritten request_id db may new) (update_request env (new request) db)
rewrite env request_id db may new request found allowed = all_Ensures _ λ p e.
    let (stamped, database, free) =
      update_request-ok env (new request) db {row = p.0} {db' = p.1} e in
    record {
      request = request;
      request_found = found;
      allowed = allowed;
      result = stamped;
      database = database;
    }

pub reject-Rewritten :
    (env : Env) (request_id : ℕ) (reason : String) (it_note : Option String) (actor_id : ℕ)
    (db : Db)
    → Ensures
        (Rewritten request_id db is_pending_it (rejected_request env reason it_note actor_id))
        (reject env request_id reason it_note actor_id db)
unfolding reject
reject-Rewritten env request_id reason it_note actor_id db = or_raise-Ensures _ _ _ λ request found.
    raise_if-Ensures _ _ _
      λ pending. rewrite env request_id db is_pending_it _ request found (ground arith)

pub cancel-Rewritten :
    (env : Env) (request_id : ℕ) (reason : String) (actor_id : ℕ) (db : Db)
    → Ensures
        (Rewritten request_id db
          (λ r. not (is_terminal r.status))
          (cancelled_request env reason actor_id))
        (cancel env request_id reason actor_id db)
unfolding cancel
cancel-Rewritten env request_id reason actor_id db = or_raise-Ensures _ _ _ λ request found.
    raise_if-Ensures _ _ _ λ active.
      rewrite env request_id db (λ r. not (is_terminal r.status)) _ request found (ground arith)

pub escalate_to_manager-Rewritten :
    (env : Env) (request_id : ℕ) (manager_id : Option ℕ) (db : Db)
    → Ensures
        (Rewritten request_id db
          (λ r. is_pending_it r && not r.requires_mgr_approval)
          (escalated_request manager_id db))
        (escalate_to_manager env request_id manager_id db)
unfolding escalate_to_manager
escalate_to_manager-Rewritten env request_id manager_id db = or_raise-Ensures _ _ _ λ request found.
    raise_if-Ensures _ _ _ λ pending.
      rewrite env request_id db (λ r. is_pending_it r && not r.requires_mgr_approval) _ request
        found (ground arith)

pub update_booking_range-Rewritten :
    (env : Env) (request_id assigned_from assigned_to : ℕ) (db : Db)
    → Ensures
        (Rewritten request_id db
          (λ r. status_is r.status RequestStatus.assigned)
          (λ r. record r { assigned_from = some assigned_from; assigned_to = some assigned_to }))
        (update_booking_range env request_id assigned_from assigned_to db)
unfolding update_booking_range
update_booking_range-Rewritten env request_id assigned_from assigned_to db =
    or_raise-Ensures _ _ _ λ request found. raise_if-Ensures _ _ _ λ is_assigned.
      or_raise-Ensures _ _ _ λ item_id booked. raise_if-Ensures _ _ _ λ free.
        rewrite env request_id db (λ r. status_is r.status RequestStatus.assigned) _ request found
          (ground arith)
