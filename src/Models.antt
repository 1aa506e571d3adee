-- ===== src/Models.antt =====
-- app/models/: the rows of the tables. Ids and tokens are UUIDs, a time is an instant in UTC and a
-- date a day, each as a number; the timestamps of `TimestampMixin` stand last.
use asset_pilot_fastapi.Prelude.{ℕ, String, Bool, Option, List}
use asset_pilot_fastapi.Enums.{
  UserRole, DeviceStatus, RequestStatus, MgrApprovalStatus, RejectedByEnum, RequestPriority,
  OwnerType, SupportType, SupportStatus, SupportResolution, ExtensionStatus, HandoverStatus,
  DeviceLogEvent, ActorRole,
}

pub record User : Type 0 where
  pub id : ℕ
  pub name : String
  pub email : String
  pub password_hash : Option String
  pub role : UserRole
  pub manager_id : Option ℕ
  pub is_active : Bool
  pub created_at : ℕ
  pub updated_at : ℕ

pub record ItemCategory : Type 0 where
  pub id : ℕ
  pub name : String
  pub description : Option String
  pub requires_mgr_approval : Bool
  pub is_active : Bool

pub record Item : Type 0 where
  pub id : ℕ
  pub name : String
  pub serial_no : String
  pub category_id : ℕ
  pub owner_type : OwnerType
  pub client_name : Option String
  pub status : DeviceStatus
  pub current_owner_id : Option ℕ
  pub purchase_date : Option ℕ
  pub qr_code_token : ℕ
  pub created_at : ℕ
  pub updated_at : ℕ

pub record Request : Type 0 where
  pub id : ℕ
  pub requester_id : ℕ
  pub category_id : ℕ
  pub assigned_item_id : Option ℕ
  pub requested_from : ℕ
  pub requested_to : ℕ
  pub assigned_from : Option ℕ
  pub assigned_to : Option ℕ
  pub status : RequestStatus
  pub priority : RequestPriority
  pub note : Option String
  pub requires_mgr_approval : Bool
  pub mgr_approval_status : MgrApprovalStatus
  pub manager_id : Option ℕ
  pub manager_decision_note : Option String
  pub manager_decided_at : Option ℕ
  pub it_decided_by : Option ℕ
  pub it_decision_note : Option String
  pub it_decided_at : Option ℕ
  pub rejected_by : Option RejectedByEnum
  pub rejected_reason : Option String
  pub cancelled_by : Option ℕ
  pub cancelled_at : Option ℕ
  pub is_wfh : Bool
  pub ship_tracking_url : Option String
  pub ship_initiated_at : Option ℕ
  pub ship_completed_at : Option ℕ
  pub return_tracking_url : Option String
  pub return_initiated_at : Option ℕ
  pub completed_at : Option ℕ
  pub completed_by : Option ℕ
  pub completed_next_status : Option DeviceStatus
  pub is_client_direct : Bool
  pub created_at : ℕ
  pub updated_at : ℕ

pub record SupportRequest : Type 0 where
  pub id : ℕ
  pub item_id : ℕ
  pub requester_id : ℕ
  pub request_id : Option ℕ
  pub type : SupportType
  pub description : String
  pub status : SupportStatus
  pub resolution : Option SupportResolution
  pub it_note : Option String
  pub swapped_to_item_id : Option ℕ
  pub filed_at : ℕ
  pub resolved_by : Option ℕ
  pub resolved_at : Option ℕ
  pub auto_closed : Bool
  pub created_at : ℕ
  pub updated_at : ℕ

pub record ExtensionRequest : Type 0 where
  pub id : ℕ
  pub original_request_id : ℕ
  pub requester_id : ℕ
  pub current_assigned_to : ℕ
  pub extended_to : ℕ
  pub status : ExtensionStatus
  pub requires_mgr_approval : Bool
  pub manager_id : Option ℕ
  pub mgr_approval_status : MgrApprovalStatus
  pub manager_note : Option String
  pub manager_decided_at : Option ℕ
  pub it_decided_by : Option ℕ
  pub it_note : Option String
  pub it_decided_at : Option ℕ
  pub created_at : ℕ
  pub updated_at : ℕ

pub record HandoverRequest : Type 0 where
  pub id : ℕ
  pub item_id : ℕ
  pub owner_id : ℕ
  pub borrower_id : ℕ
  pub requested_duration_hours : Option ℕ
  pub status : HandoverStatus
  pub requested_at : ℕ
  pub decided_at : Option ℕ
  pub completed_at : Option ℕ
  pub note : Option String
  pub created_at : ℕ
  pub updated_at : ℕ

-- One changed field of an edited item, with its old and new value as JSON.
pub data FieldChange : Type 0 where
  name_change : String → String → FieldChange
  category_id_change : ℕ → ℕ → FieldChange
  client_name_change : Option String → Option String → FieldChange
  purchase_date_change : Option ℕ → Option ℕ → FieldChange

-- The values of a log row's `metadata`.
pub data MetadataValue : Type 0 where
  text : String → MetadataValue
  id_text : ℕ → MetadataValue
  changes : List FieldChange → MetadataValue

pub record DeviceLog : Type 0 where
  pub id : ℕ
  pub item_id : ℕ
  pub event_type : DeviceLogEvent
  pub actor_id : Option ℕ
  pub actor_role : ActorRole
  pub request_id : Option ℕ
  pub support_request_id : Option ℕ
  pub extension_request_id : Option ℕ
  pub handover_request_id : Option ℕ
  pub from_value : Option String
  pub to_value : Option String
  pub note : Option String
  pub log_metadata : List (String × MetadataValue)
  pub is_milestone : Bool
  pub occurred_at : ℕ
