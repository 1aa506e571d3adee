-- ===== src/Services/Requests.antt =====
-- app/services/request_service.py: rejecting, cancelling and escalating a request.
use asset_pilot_fastapi.Prelude.{ℕ, String, true, not, ◌||◌, Option, none, some}
use asset_pilot_fastapi.Result.{Result, ◌>>=◌, ◌>>◌, raise_if, conflict}
use asset_pilot_fastapi.Enums.{RequestStatus, RejectedByEnum, MgrApprovalStatus}
use asset_pilot_fastapi.Models.{Request, User}
use asset_pilot_fastapi.Database.{Db, Env, is_terminal}
use asset_pilot_fastapi.Repositories.{get_user, update_request}
use asset_pilot_fastapi.Repositories.Requests.{status_is}
use asset_pilot_fastapi.Services.Lookup.{get_request_or_404}

unfoldable pub reject : Env → ℕ → String → Option String → ℕ → Db → Result (Request × Db)
unfolding get_request_or_404
reject env request_id rejected_reason it_decision_note actor_id db = do
  request ← get_request_or_404 request_id db
  raise_if (not (status_is request.status RequestStatus.pending_it_approval))
      (conflict "Only requests pending IT approval can be rejected.")
  update_request env
      (record request {
        status = RequestStatus.rejected;
        rejected_by = some RejectedByEnum.it_admin;
        rejected_reason = some rejected_reason;
        it_decision_note = it_decision_note;
        it_decided_by = some actor_id;
        it_decided_at = some (env.clock 0);
      })
      db

unfoldable pub cancel : Env → ℕ → String → ℕ → Db → Result (Request × Db)
unfolding get_request_or_404
cancel env request_id rejected_reason actor_id db = do
  request ← get_request_or_404 request_id db
  raise_if (is_terminal request.status)
      (conflict "Cannot cancel a request that has already reached a terminal state.")
  update_request env
      (record request {
        status = RequestStatus.cancelled;
        cancelled_by = some actor_id;
        cancelled_at = some (env.clock 0);
        rejected_by = some RejectedByEnum.it_admin_cancel;
        rejected_reason = some rejected_reason;
      })
      db

-- The manager of a requester, where the requester is known.
abbrev pub manager_of : Option User → Option ℕ
manager_of none = none
manager_of (some u) = u.manager_id

-- The manager given, or else the requester's.
abbrev pub resolve_manager : Option ℕ → Option User → Option ℕ
resolve_manager (some m) requester = some m
resolve_manager none requester = manager_of requester

unfoldable pub escalate_to_manager : Env → ℕ → Option ℕ → Db → Result (Request × Db)
unfolding get_request_or_404
escalate_to_manager env request_id manager_id db = do
  request ← get_request_or_404 request_id db
  raise_if
      (not (status_is request.status RequestStatus.pending_it_approval)
        || request.requires_mgr_approval)
      (conflict
        "Only requests pending IT approval that have not yet required manager approval can be escalated.")
  update_request env
      (record request {
        requires_mgr_approval = true;
        mgr_approval_status = MgrApprovalStatus.pending;
        manager_id = resolve_manager manager_id (get_user request.requester_id db);
        status = RequestStatus.pending_mgr_approval;
      })
      db
