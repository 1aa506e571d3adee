-- ===== src/Examples/Data.antt =====
-- The rows and the database of the examples.
use asset_pilot_fastapi.Enums.{
  MgrApprovalStatus, RequestPriority, SupportStatus, RequestStatus, SupportType, UserRole,
  OwnerType, DeviceStatus,
}
use asset_pilot_fastapi.Database.{Db, Env}
use asset_pilot_fastapi.Models.{SupportRequest, User, ItemCategory, Request, Item}
use asset_pilot_fastapi.Result.{err, ok, Result}
use asset_pilot_fastapi.Prelude.{false, true, [], ◌+◌, ◌∷◌, ◌∷◌, some, none, ◌+◌}

abbrev pub admin : User
admin = record {
  id = 1;
  name = "Ada";
  email = "ada@example.com";
  password_hash = some "hash";
  role = UserRole.it_admin;
  manager_id = none;
  is_active = true;
  created_at = 0;
  updated_at = 0;
}

abbrev pub employee : User
employee = record admin {
  id = 2;
  name = "Eve";
  email = "eve@example.com";
  role = UserRole.employee;
  manager_id = some 1;
}

abbrev pub laptops : ItemCategory
laptops = record {
  id = 5;
  name = "Laptop";
  description = none;
  requires_mgr_approval = false;
  is_active = true;
}

abbrev pub laptop : Item
laptop = record {
  id = 10;
  name = "Laptop A";
  serial_no = "A-1";
  category_id = 5;
  owner_type = OwnerType.client;
  client_name = some "Client";
  status = DeviceStatus.available;
  current_owner_id = none;
  purchase_date = none;
  qr_code_token = 100;
  created_at = 0;
  updated_at = 0;
}

abbrev pub spare : Item
spare = record laptop { id = 11; name = "Laptop B"; serial_no = "B-1"; qr_code_token = 101 }

abbrev pub request : Request
request = record {
  id = 20;
  requester_id = 2;
  category_id = 5;
  assigned_item_id = none;
  requested_from = 30;
  requested_to = 40;
  assigned_from = none;
  assigned_to = none;
  status = RequestStatus.pending_it_approval;
  priority = RequestPriority.medium;
  note = none;
  requires_mgr_approval = false;
  mgr_approval_status = MgrApprovalStatus.not_required;
  manager_id = none;
  manager_decision_note = none;
  manager_decided_at = none;
  it_decided_by = none;
  it_decision_note = none;
  it_decided_at = none;
  rejected_by = none;
  rejected_reason = none;
  cancelled_by = none;
  cancelled_at = none;
  is_wfh = false;
  ship_tracking_url = none;
  ship_initiated_at = none;
  ship_completed_at = none;
  return_tracking_url = none;
  return_initiated_at = none;
  completed_at = none;
  completed_by = none;
  completed_next_status = none;
  is_client_direct = false;
  created_at = 0;
  updated_at = 0;
}

-- The request that is assigned the first laptop.
abbrev pub held_request : Request
held_request = record request {
  assigned_item_id = some 10;
  assigned_from = some 30;
  assigned_to = some 40;
  is_wfh = true;
  status = RequestStatus.assigned;
}

abbrev pub held_laptop : Item
held_laptop = record laptop { status = DeviceStatus.assigned; current_owner_id = some 2 }

-- A ticket for the first laptop.
abbrev pub ticket : SupportRequest
ticket = record {
  id = 50;
  item_id = 10;
  requester_id = 2;
  request_id = some 20;
  type = SupportType.damage;
  description = "Cracked";
  status = SupportStatus.open_status;
  resolution = none;
  it_note = none;
  swapped_to_item_id = none;
  filed_at = 3;
  resolved_by = none;
  resolved_at = none;
  auto_closed = false;
  created_at = 3;
  updated_at = 3;
}

-- A database with a request that waits.
abbrev pub waiting : Db
waiting = record {
  users = admin ∷ employee ∷ [];
  categories = laptops ∷ [];
  items = laptop ∷ spare ∷ [];
  requests = request ∷ [];
  support_requests = [];
  extension_requests = [];
  handover_requests = [];
  device_logs = [];
}

-- A database with a request that holds a laptop, and a ticket for it.
abbrev pub holding : Db
holding = record waiting {
  items = held_laptop ∷ spare ∷ [];
  requests = held_request ∷ [];
  support_requests = ticket ∷ [];
}

-- The world outside of a call.
abbrev pub outside : Env
outside = record {
  transaction_time = 7;
  clock = λ i. 8 + i;
  new_id = λ n. 1000 + n;
  new_qr_code_token = λ n. 2000 + n;
}

-- What a handler returned, or else the given value.
abbrev pub value : {A : Type 0} → A → Result A → A
value default (ok a) = a
value default (err e) = default

-- Another request for a laptop, beside the one that holds the first.
abbrev pub rival : Request
rival = record request { id = 21; requester_id = 1 }

abbrev pub rivalled : Db
rivalled = record holding { requests = held_request ∷ rival ∷ [] }
