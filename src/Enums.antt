-- ===== src/Enums.antt =====
-- app/models/enums.py: the Postgres enum types as data types, with the values that the device log
-- stores for a device status. Each has a decision of equality, for the tests `==` and `!=`.
use asset_pilot_fastapi.Prelude.{String}

pub data UserRole : Type 0 where
  employee manager it_admin : UserRole

unfoldable pub UserRole-discrete : Discrete UserRole
UserRole-discrete = hlevel

pub data DeviceStatus : Type 0 where
  available assigned shipping_pending return_shipping_pending under_repair maintenance lost retired
        returned_to_client :
      DeviceStatus

unfoldable pub DeviceStatus-discrete : Discrete DeviceStatus
DeviceStatus-discrete = hlevel

pub data RequestStatus : Type 0 where
  requested pending_mgr_approval pending_it_approval assigned completed rejected cancelled :
      RequestStatus

unfoldable pub RequestStatus-discrete : Discrete RequestStatus
RequestStatus-discrete = hlevel

pub data MgrApprovalStatus : Type 0 where
  not_required pending approved rejected : MgrApprovalStatus

unfoldable pub MgrApprovalStatus-discrete : Discrete MgrApprovalStatus
MgrApprovalStatus-discrete = hlevel

pub data RejectedByEnum : Type 0 where
  manager it_admin it_admin_cancel : RejectedByEnum

unfoldable pub RejectedByEnum-discrete : Discrete RejectedByEnum
RejectedByEnum-discrete = hlevel

pub data RequestPriority : Type 0 where
  low medium high : RequestPriority

unfoldable pub RequestPriority-discrete : Discrete RequestPriority
RequestPriority-discrete = hlevel

pub data OwnerType : Type 0 where
  company client : OwnerType

unfoldable pub OwnerType-discrete : Discrete OwnerType
OwnerType-discrete = hlevel

pub data SupportType : Type 0 where
  update damage lost : SupportType

unfoldable pub SupportType-discrete : Discrete SupportType
SupportType-discrete = hlevel

pub data SupportStatus : Type 0 where
  open_status in_progress resolved : SupportStatus

unfoldable pub SupportStatus-discrete : Discrete SupportStatus
SupportStatus-discrete = hlevel

pub data SupportResolution : Type 0 where
  remote_resolved repaired_in_place swapped marked_lost : SupportResolution

unfoldable pub SupportResolution-discrete : Discrete SupportResolution
SupportResolution-discrete = hlevel

pub data ExtensionStatus : Type 0 where
  pending approved rejected : ExtensionStatus

unfoldable pub ExtensionStatus-discrete : Discrete ExtensionStatus
ExtensionStatus-discrete = hlevel

pub data HandoverStatus : Type 0 where
  requested accepted rejected cancelled completed : HandoverStatus

unfoldable pub HandoverStatus-discrete : Discrete HandoverStatus
HandoverStatus-discrete = hlevel

pub data DeviceLogEvent : Type 0 where
  device_created device_edited assigned client_assigned ship_outbound_initiated
        ship_outbound_completed return_ship_initiated return_received assignment_completed
        status_changed support_opened support_resolved support_auto_closed extension_requested
        extension_approved extension_rejected handover_requested handover_accepted handover_rejected
        handover_cancelled handover_completed marked_lost retired returned_to_client swapped_out
        swapped_in :
      DeviceLogEvent

unfoldable pub DeviceLogEvent-discrete : Discrete DeviceLogEvent
DeviceLogEvent-discrete = hlevel

pub data ActorRole : Type 0 where
  employee manager it_admin system : ActorRole

unfoldable pub ActorRole-discrete : Discrete ActorRole
ActorRole-discrete = hlevel

-- `status.value`
unfoldable pub status_value : DeviceStatus → String
status_value DeviceStatus.available = "available"
status_value DeviceStatus.assigned = "assigned"
status_value DeviceStatus.shipping_pending = "shipping_pending"
status_value DeviceStatus.return_shipping_pending = "return_shipping_pending"
status_value DeviceStatus.under_repair = "under_repair"
status_value DeviceStatus.maintenance = "maintenance"
status_value DeviceStatus.lost = "lost"
status_value DeviceStatus.retired = "retired"
status_value DeviceStatus.returned_to_client = "returned_to_client"

-- `role.value`
unfoldable pub role_value : UserRole → String
role_value UserRole.employee = "employee"
role_value UserRole.manager = "manager"
role_value UserRole.it_admin = "it_admin"
