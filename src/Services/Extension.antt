-- ===== src/Services/Extension.antt =====
-- app/services/extension_service.py: approving and rejecting an extension of a booking.
use asset_pilot_fastapi.Prelude.{ℕ, String, Bool, true, false, not, Option, some, same}
use asset_pilot_fastapi.Result.{
  Result, ok, ◌>>=◌, ◌>>◌, raise_if, or_raise, conflict, not_found, assertion_error,
}
use asset_pilot_fastapi.Enums.{
  ExtensionStatus, ExtensionStatus-discrete, MgrApprovalStatus, DeviceLogEvent, ActorRole,
}
use asset_pilot_fastapi.Models.{ExtensionRequest, Request}
use asset_pilot_fastapi.Database.{Db, Env}
use asset_pilot_fastapi.Repositories.{
  get_extension_request, get_request, update_request, update_extension_request,
}
use asset_pilot_fastapi.Services.DeviceLog.{append, log_args}

unfoldable pub get_extension_or_404 : ℕ → Db → Result ExtensionRequest
get_extension_or_404 k db =
    or_raise (get_extension_request k db) (not_found "Extension request not found.")

unfoldable pub get_parent_request_or_404 : ℕ → Db → Result Request
get_parent_request_or_404 k db =
    or_raise (get_request k db) (not_found "The parent request was not found.")

-- `_MGR_APPROVAL_STATUSES_ALLOWING_IT_APPROVAL`
abbrev pub allows_it_approval : MgrApprovalStatus → Bool
allows_it_approval MgrApprovalStatus.not_required = true
allows_it_approval MgrApprovalStatus.approved = true
allows_it_approval _ = false

-- The assertion and the log entry that both operations end with.
unfoldable pub log_decision :
    Env → DeviceLogEvent → Request → ExtensionRequest → ℕ → Db → Result (ExtensionRequest × Db)
log_decision env event parent_request updated actor_id db = do
  item_id ← or_raise parent_request.assigned_item_id assertion_error
  (entry, db1) ←
      append env
        (record (log_args item_id event (some actor_id) ActorRole.it_admin) {
          request_id = some parent_request.id;
          extension_request_id = some updated.id;
          is_milestone = some false;
        })
        db
  ok (updated, db1)

unfoldable pub approve : Env → ℕ → Option String → ℕ → Db → Result (ExtensionRequest × Db)
unfolding get_extension_or_404 get_parent_request_or_404
approve env extension_request_id it_note actor_id db = do
  extension_request ← get_extension_or_404 extension_request_id db
  raise_if (not (same ExtensionStatus-discrete extension_request.status ExtensionStatus.pending))
      (conflict "Only pending extension requests can be approved.")
  raise_if (not (allows_it_approval extension_request.mgr_approval_status))
      (conflict "This extension is awaiting manager approval and cannot be approved yet.")
  parent_request ← get_parent_request_or_404 extension_request.original_request_id db
  (updated_parent, db1) ←
      update_request env
        (record parent_request { assigned_to = some extension_request.extended_to }) db
  (updated, db2) ←
      update_extension_request env
        (record extension_request {
          status = ExtensionStatus.approved;
          it_decided_by = some actor_id;
          it_note = it_note;
          it_decided_at = some (env.clock 0);
        })
        db1
  log_decision env DeviceLogEvent.extension_approved updated_parent updated actor_id db2

unfoldable pub reject : Env → ℕ → Option String → ℕ → Db → Result (ExtensionRequest × Db)
unfolding get_extension_or_404 get_parent_request_or_404
reject env extension_request_id it_note actor_id db = do
  extension_request ← get_extension_or_404 extension_request_id db
  raise_if (not (same ExtensionStatus-discrete extension_request.status ExtensionStatus.pending))
      (conflict "Only pending extension requests can be rejected.")
  parent_request ← get_parent_request_or_404 extension_request.original_request_id db
  (updated, db1) ←
      update_extension_request env
        (record extension_request {
          status = ExtensionStatus.rejected;
          it_decided_by = some actor_id;
          it_note = it_note;
          it_decided_at = some (env.clock 0);
        })
        db
  log_decision env DeviceLogEvent.extension_rejected parent_request updated actor_id db1
