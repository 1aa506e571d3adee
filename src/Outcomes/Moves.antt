-- ===== src/Outcomes/Moves.antt =====
-- What each operation does to the requests, and the edges of their life cycle.
use asset_pilot_fastapi.Outcomes.Swap.{swap-Swapped}
use asset_pilot_fastapi.Enums.{RequestStatus-discrete}
use asset_pilot_fastapi.Outcomes.Support.{mark_lost-MarkedLost, repair_in_place-Repaired}
use asset_pilot_fastapi.Table.Laws.{find-key, find-replace, find-append}
use asset_pilot_fastapi.Outcomes.Extension.{reject-Refused, approve-Approved}
use asset_pilot_fastapi.Outcomes.Returns.{complete_return-Returned}
use asset_pilot_fastapi.Outcomes.Shipping.{ship-Shipped, confirm_delivery-Delivered}
use asset_pilot_fastapi.Outcomes.Assignment.{assign-Assigned, direct_assign-DirectlyAssigned}
use asset_pilot_fastapi.Services.Assignment.{assign, direct_assign, update_booking_range}
use asset_pilot_fastapi.Table.{replace, find}
use asset_pilot_fastapi.Services.Shipping.{complete_return, ship, confirm_delivery}
use asset_pilot_fastapi.Repositories.Requests.{status_is}
use asset_pilot_fastapi.Models.{Item, SupportRequest, Request}
use asset_pilot_fastapi.Result.Ensures.{or_raise-Ensures, returns, map-Ensures, Ensures}
use asset_pilot_fastapi.Repositories.{get_request}
use asset_pilot_fastapi.Enums.{DeviceStatus, SupportResolution, RequestStatus}
use asset_pilot_fastapi.Database.{is_terminal, request_key, Env, Db}
use asset_pilot_fastapi.Services.Requests.{cancel, escalate_to_manager, reject}
use asset_pilot_fastapi.Services.Extension.{approve}
use asset_pilot_fastapi.Services.Extension
use asset_pilot_fastapi.Outcomes.Requests.{
  update_booking_range-Rewritten, escalate_to_manager-Rewritten, cancel-Rewritten, reject-Rewritten,
}
use asset_pilot_fastapi.Services.Support.{resolve_device}
use asset_pilot_fastapi.Prelude.{
  [], ◌∷◌, ◌∷◌, ◌++◌, ◌++◌, inr, none, inl, ◌==◌, ◌==◌, Bool-cases, not, ◌&&◌, ◌&&◌, some, refl,
  ◌||◌, ◌||◌, true, String, ◌≡◌, Bool, ◌≡◌, arith, Option, ℕ,
}

-- The edges. A completed return or a lost device completes a request whatever its status.
abbrev pub may_move : RequestStatus → RequestStatus → Bool
may_move old new =
    status_is new old
    || status_is new RequestStatus.completed
    || (status_is new RequestStatus.cancelled && not (is_terminal old))
    || (status_is old RequestStatus.pending_it_approval
        && (status_is new RequestStatus.assigned
            || status_is new RequestStatus.rejected
            || status_is new RequestStatus.pending_mgr_approval))

abbrev pub SameRequests : Db → Db → Type 0
SameRequests db db' = db'.requests ≡ db.requests

-- What a call does to the requests: nothing, or one is rewritten along an edge, or one is added.
pub data Moved (db db' : Db) : Type 0 where
  same_rows : SameRequests db db' → Moved db db'
  one_rewritten :
      (k0 : ℕ) (old new : Request)
      → find request_key k0 db.requests ≡ some old
      → new.id ≡ old.id
      → may_move old.status new.status ≡ true
      → db'.requests ≡ replace request_key new db.requests
      → Moved db db'
  one_added : (new : Request) → db'.requests ≡ db.requests ++ new ∷ [] → Moved db db'

stays : (s : RequestStatus) → may_move s s ≡ true
unfolding RequestStatus-discrete
stays RequestStatus.requested = refl
stays RequestStatus.pending_mgr_approval = refl
stays RequestStatus.pending_it_approval = refl
stays RequestStatus.rejected = refl
stays RequestStatus.assigned = refl
stays RequestStatus.completed = refl
stays RequestStatus.cancelled = refl

pub unmoved : (db db' : Db) → SameRequests db db' → Moved db db'
unmoved db db' e = same_rows e

replaced :
    (db db' : Db) (k0 : ℕ) (old new : Request)
    → find request_key k0 db.requests ≡ some old
    → new.id ≡ old.id
    → may_move old.status new.status ≡ true
    → db'.requests ≡ replace request_key new db.requests
    → Moved db db'
replaced db db' k0 old new found same_key moves wrote =
    one_rewritten k0 old new found same_key moves wrote

-- Each request that was there is still there, and has moved along an edge or not at all.
pub moves-Moved :
    (db db' : Db) (k : ℕ) (r : Request)
    → Moved db db'
    → find request_key k db.requests ≡ some r
    → (r' : Request) × (find request_key k db'.requests ≡ some r')
      × (may_move r.status r'.status ≡ true)
moves-Moved db db' k r (same_rows e) h = (r, ground (arith, e), stays r.status)
moves-Moved db db' k r (one_added new wrote) h =
    (r, ground (arith, wrote, find-append request_key new k db.requests), stays r.status)
moves-Moved db db' k r (one_rewritten k0 old new found same_key moves wrote) h =
    elim (Bool-cases (new.id == k)) [
      | inl e ↦ (
        new,
        ground (arith, wrote, find-replace request_key new k db.requests),
        ground (arith, find-key request_key k0 db.requests {x = old} found),
      )
      | inr e ↦
          (r, ground (arith, wrote, find-replace request_key new k db.requests), stays r.status)
    ]

module _ (env : Env) (db : Db) where
  pub update_booking_range-Moved :
      (r from to : ℕ) → Ensures (λ p. Moved db p.1) (update_booking_range env r from to db)
  unfolding get_request
  update_booking_range-Moved r from to =
      map-Ensures _ (update_booking_range-Rewritten env r from to db) λ p o.
        replaced db p.1 r o.request p.0 o.request_found (ground (arith, o.result))
          (ground (arith, o.result, stays o.request.status)) (ground (arith, o.database))

  pub reject-Moved :
      (r : ℕ) (reason : String) (it_note : Option String) (a : ℕ)
      → Ensures (λ p. Moved db p.1) (reject env r reason it_note a db)
  unfolding get_request
  reject-Moved r reason it_note a =
      map-Ensures _ (reject-Rewritten env r reason it_note a db) λ p o.
        replaced db p.1 r o.request p.0 o.request_found (ground (arith, o.result))
          (ground (arith, o.result, o.allowed)) (ground (arith, o.database))

  pub cancel-Moved :
      (r : ℕ) (reason : String) (a : ℕ) → Ensures (λ p. Moved db p.1) (cancel env r reason a db)
  unfolding get_request
  cancel-Moved r reason a = map-Ensures _ (cancel-Rewritten env r reason a db) λ p o.
      replaced db p.1 r o.request p.0 o.request_found (ground (arith, o.result))
        (ground (arith, o.result, o.allowed)) (ground (arith, o.database))

  pub escalate_to_manager-Moved :
      (r : ℕ) (m : Option ℕ) → Ensures (λ p. Moved db p.1) (escalate_to_manager env r m db)
  unfolding get_request
  escalate_to_manager-Moved r m = map-Ensures _ (escalate_to_manager-Rewritten env r m db) λ p o.
      replaced db p.1 r o.request p.0 o.request_found (ground (arith, o.result))
        (ground (arith, o.result, o.allowed)) (ground (arith, o.database))

  pub assign-Moved :
      (r i from to : ℕ) (wfh : Bool) (a : ℕ)
      → Ensures (λ p. Moved db p.1) (assign env r i from to wfh a db)
  unfolding get_request
  assign-Moved r i from to wfh a = map-Ensures _ (assign-Assigned env r i from to wfh a db) λ p o.
      replaced db p.1 r o.request p.0 o.request_found (ground (arith, o.result))
        (ground (arith, o.result, o.pending)) (ground (arith, o.database))

  pub direct_assign-Moved :
      (i e from to a : ℕ) → Ensures (λ p. Moved db p.1) (direct_assign env i e from to a db)
  direct_assign-Moved i e from to a =
      map-Ensures _ (direct_assign-DirectlyAssigned env i e from to a db)
        λ p o. one_added p.0 (ground (arith, o.database))

  pub ship-Moved :
      (r : ℕ) (url : String) (a : ℕ) → Ensures (λ p. Moved db p.1) (ship env r url a db)
  unfolding get_request
  ship-Moved r url a = map-Ensures _ (ship-Shipped env r url a db) λ p o.
      replaced db p.1 r o.request p.0 o.request_found (ground (arith, o.result))
        (ground (arith, o.result, stays o.request.status)) (ground (arith, o.database))

  pub confirm_delivery-Moved : (r a : ℕ) → Ensures (λ p. Moved db p.1) (confirm_delivery env r a db)
  unfolding get_request
  confirm_delivery-Moved r a = map-Ensures _ (confirm_delivery-Delivered env r a db) λ p o.
      replaced db p.1 r o.request p.0 o.request_found (ground (arith, o.result))
        (ground (arith, o.result, stays o.request.status)) (ground (arith, o.database))

  pub complete_return-Moved :
      (r : ℕ) (next : DeviceStatus) (a : ℕ)
      → Ensures (λ p. Moved db p.1) (complete_return env r next a db)
  unfolding get_request
  complete_return-Moved r next a = map-Ensures _ (complete_return-Returned env r next a db) λ p o.
      replaced db p.1 r o.request p.0 o.request_found (ground (arith, o.result))
        (ground (arith, o.result)) o.requests

  pub approve-Moved :
      (x : ℕ) (it_note : Option String) (a : ℕ)
      → Ensures (λ p. Moved db p.1) (approve env x it_note a db)
  unfolding get_request
  approve-Moved x it_note a = map-Ensures _ (approve-Approved env x it_note a db) λ p o.
      replaced db p.1 o.extension.original_request_id o.parent
        (record o.parent { assigned_to = some o.extension.extended_to; updated_at = o.parent_time })
        o.parent_found refl (stays o.parent.status) (ground (arith, o.database))

  pub refuse-Moved :
      (x : ℕ) (it_note : Option String) (a : ℕ)
      → Ensures (λ p. Moved db p.1) (Extension.reject env x it_note a db)
  refuse-Moved x it_note a =
      map-Ensures _ (reject-Refused env x it_note a db)
        λ p o. unmoved db p.1 (ground (arith, o.database))

  pub resolve_device-Moved :
      (resolution : SupportResolution) (ticket : SupportRequest) (item : Item) (to : Option ℕ)
      (next : Option DeviceStatus) (a : ℕ)
      → Ensures (λ p. Moved db p.1) (resolve_device env resolution ticket item to next a db)
  unfolding resolve_device get_request
  resolve_device-Moved SupportResolution.remote_resolved ticket item to next a =
      returns (unmoved db db refl)
  resolve_device-Moved SupportResolution.repaired_in_place ticket item to next a =
      map-Ensures _ (repair_in_place-Repaired env ticket item a db)
        λ p o. unmoved db p.1 (ground (arith, o.changed.database))
  resolve_device-Moved SupportResolution.swapped ticket item to next a =
      or_raise-Ensures _ _ _ λ k e. or_raise-Ensures _ _ _ λ status e'.
        map-Ensures _ (swap-Swapped env ticket item k status a db) λ p o.
          replaced db p.1 o.request_id o.request _ o.request_found refl (stays o.request.status)
            o.requests
  resolve_device-Moved SupportResolution.marked_lost ticket item to next a =
      map-Ensures _ (mark_lost-MarkedLost env ticket item a db) λ p o.
        replaced db p.1 o.request_id o.request
          (record o.request {
            status = RequestStatus.completed;
            completed_at = some (env.clock 0);
            completed_by = some a;
            completed_next_status = none;
            updated_at = o.request_time;
          })
          o.request_found refl (ground arith) (ground (arith, o.database))
