-- ===== src/Services/DeviceLog.antt =====
-- app/services/device_log_service.py: the writer of the audit log.
use asset_pilot_fastapi.Prelude.{ℕ, String, Bool, true, false, Option, none, some, List, [], length}
use asset_pilot_fastapi.Result.{Result}
use asset_pilot_fastapi.Enums.{DeviceLogEvent, ActorRole}
use asset_pilot_fastapi.Models.{DeviceLog, MetadataValue}
use asset_pilot_fastapi.Database.{Db, Env}
use asset_pilot_fastapi.Repositories.{insert_log}

unfoldable pub event_milestone_map : DeviceLogEvent → Bool
event_milestone_map DeviceLogEvent.device_created = false
event_milestone_map DeviceLogEvent.device_edited = false
event_milestone_map DeviceLogEvent.assigned = true
event_milestone_map DeviceLogEvent.client_assigned = true
event_milestone_map DeviceLogEvent.ship_outbound_initiated = false
event_milestone_map DeviceLogEvent.ship_outbound_completed = false
event_milestone_map DeviceLogEvent.return_ship_initiated = false
event_milestone_map DeviceLogEvent.return_received = true
event_milestone_map DeviceLogEvent.assignment_completed = true
event_milestone_map DeviceLogEvent.status_changed = true
event_milestone_map DeviceLogEvent.support_opened = true
event_milestone_map DeviceLogEvent.support_resolved = true
event_milestone_map DeviceLogEvent.support_auto_closed = false
event_milestone_map DeviceLogEvent.extension_requested = false
event_milestone_map DeviceLogEvent.extension_approved = false
event_milestone_map DeviceLogEvent.extension_rejected = false
event_milestone_map DeviceLogEvent.handover_requested = false
event_milestone_map DeviceLogEvent.handover_accepted = true
event_milestone_map DeviceLogEvent.handover_rejected = false
event_milestone_map DeviceLogEvent.handover_cancelled = false
event_milestone_map DeviceLogEvent.handover_completed = true
event_milestone_map DeviceLogEvent.marked_lost = true
event_milestone_map DeviceLogEvent.retired = true
event_milestone_map DeviceLogEvent.returned_to_client = true
event_milestone_map DeviceLogEvent.swapped_out = false
event_milestone_map DeviceLogEvent.swapped_in = false

-- The keyword arguments of `append`.
pub record LogArgs : Type 0 where
  pub item_id : ℕ
  pub event_type : DeviceLogEvent
  pub actor_id : Option ℕ
  pub actor_role : ActorRole
  pub request_id : Option ℕ
  pub support_request_id : Option ℕ
  pub extension_request_id : Option ℕ
  pub handover_request_id : Option ℕ
  pub from_value : Option String
  pub to_value : Option String
  pub note : Option String
  pub metadata : Option (List (String × MetadataValue))
  pub is_milestone : Option Bool

-- The arguments without a default, with the defaults for the others.
abbrev pub log_args : ℕ → DeviceLogEvent → Option ℕ → ActorRole → LogArgs
log_args item_id event_type actor_id actor_role = record {
  item_id = item_id;
  event_type = event_type;
  actor_id = actor_id;
  actor_role = actor_role;
  request_id = none;
  support_request_id = none;
  extension_request_id = none;
  handover_request_id = none;
  from_value = none;
  to_value = none;
  note = none;
  metadata = none;
  is_milestone = none;
}

-- `metadata or {}`
abbrev or_empty : Option (List (String × MetadataValue)) → List (String × MetadataValue)
or_empty none = []
or_empty (some m) = m

abbrev or_mapped : Option Bool → DeviceLogEvent → Bool
or_mapped none event = event_milestone_map event
or_mapped (some b) event = b

unfoldable pub log_row : Env → LogArgs → Db → DeviceLog
log_row env a db = record {
  id = env.new_id (length db.device_logs);
  item_id = a.item_id;
  event_type = a.event_type;
  actor_id = a.actor_id;
  actor_role = a.actor_role;
  request_id = a.request_id;
  support_request_id = a.support_request_id;
  extension_request_id = a.extension_request_id;
  handover_request_id = a.handover_request_id;
  from_value = a.from_value;
  to_value = a.to_value;
  note = a.note;
  log_metadata = or_empty a.metadata;
  is_milestone = or_mapped a.is_milestone a.event_type;
  occurred_at = env.transaction_time;
}

unfoldable pub append : Env → LogArgs → Db → Result (DeviceLog × Db)
append env a db = insert_log (log_row env a db) db
