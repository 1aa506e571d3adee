-- ===== src/Properties/Exclusion.antt =====
-- No device is assigned twice: the partial unique index behind app/services/assignment_service.py.
use asset_pilot_fastapi.Invariant.Assignment.{assign-Keeps}
use asset_pilot_fastapi.Outcomes.Assignment.{assign-Assigned}
use asset_pilot_fastapi.Table.Laws.{find-replace, find-key}
use asset_pilot_fastapi.Result.Ensures.{of_Ensures}
use asset_pilot_fastapi.Result.{ok}
use asset_pilot_fastapi.Services.Assignment.{assign}
use asset_pilot_fastapi.Enums.{RequestStatus}
use asset_pilot_fastapi.Api.Reach.{Reach-IsValid, Reach}
use asset_pilot_fastapi.Models.{Request}
use asset_pilot_fastapi.Invariant.{IsValid}
use asset_pilot_fastapi.Repositories.{get_request}
use asset_pilot_fastapi.Database.{request_key, Db, collides, Env}
use asset_pilot_fastapi.Prelude.{==_refl, arith, some, ◌≡◌, ◌≡◌, Bool, ℕ}

-- In a database that calls and registrations have led to from a valid one, two assigned requests with one device are one request.
pub assigned_once :
    {start db : Db} (j k item_id : ℕ) (r s : Request)
    → IsValid start
    → Reach start db
    → get_request j db ≡ some r
    → get_request k db ≡ some s
    → r.status ≡ RequestStatus.assigned
    → s.status ≡ RequestStatus.assigned
    → r.assigned_item_id ≡ some item_id
    → s.assigned_item_id ≡ some item_id
    → r ≡ s
unfolding get_request collides
assigned_once {db} j k item_id r s valid reach er es r_on s_on r_item s_item =
    let v = Reach-IsValid valid reach in
    ground (
      arith,
      v.index_holds j k r s er es,
      find-key request_key j db.requests {x = r} er,
      find-key request_key k db.requests {x = s} es,
      ==_refl item_id,
    )

module _ (env : Env) (db : Db) (valid : IsValid db) where
  -- While a valid database has an assigned request for a device, no other request can be assigned this device, at whatever dates: the call does not return.
  pub assign-excluded :
      (holder_id item_id request_id assigned_from assigned_to : ℕ) (is_wfh : Bool) (actor_id : ℕ)
      (holder : Request) (p : Request × Db)
      → get_request holder_id db ≡ some holder
      → holder.status ≡ RequestStatus.assigned
      → holder.assigned_item_id ≡ some item_id
      → ¬ (assign env request_id item_id assigned_from assigned_to is_wfh actor_id db ≡ ok p)
  unfolding get_request collides
  assign-excluded holder_id item_id request_id assigned_from assigned_to is_wfh actor_id holder p
        found is_assigned holds_item h =
      let o =
        of_Ensures
          (assign-Assigned env request_id item_id assigned_from assigned_to is_wfh actor_id db) p
          h in
      let v =
        of_Ensures
          (assign-Keeps env db valid request_id item_id assigned_from assigned_to is_wfh actor_id) p
          h in
      ground (
        arith,
        o.request_found,
        o.pending,
        o.result,
        o.database,
        find-key request_key holder_id db.requests {x = holder} found,
        find-key request_key request_id db.requests {x = o.request} o.request_found,
        find-replace request_key p.0 holder_id db.requests,
        find-replace request_key p.0 request_id db.requests,
        v.index_holds request_id holder_id p.0 holder,
        ==_refl item_id,
      )
