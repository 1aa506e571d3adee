-- ===== src/Properties/Requests.antt =====
-- The life of a request: app/services/request_service.py.

use asset_pilot_fastapi.Table.Laws.{find-replace, find-key}
use asset_pilot_fastapi.Outcomes.Requests.{cancel-Rewritten}
use asset_pilot_fastapi.Result.Ensures.{of_Ensures}
use asset_pilot_fastapi.Result.{ok}
use asset_pilot_fastapi.Enums.{RequestStatus}
use asset_pilot_fastapi.Services.Requests.{cancel}
use asset_pilot_fastapi.Invariant.{IsValid}
use asset_pilot_fastapi.Models.{Request}
use asset_pilot_fastapi.Database.{request_key, Db, collides, Env}
use asset_pilot_fastapi.Repositories.{get_request}
use asset_pilot_fastapi.Prelude.{==_refl, arith, some, ◌≡◌, ◌≡◌, String, ℕ}

-- In a valid database, cancelling an assigned request strands its device: the call leaves the devices as they are, the owner included, and no request that is assigned has this device any more.
pub cancel-strands :
    (env : Env) (request_id item_id : ℕ) (reason : String) (actor_id other_id : ℕ) (db db' : Db)
    (old result other : Request)
    → IsValid db
    → get_request request_id db ≡ some old
    → old.status ≡ RequestStatus.assigned
    → old.assigned_item_id ≡ some item_id
    → cancel env request_id reason actor_id db ≡ ok (result, db')
    → get_request other_id db' ≡ some other
    → other.assigned_item_id ≡ some item_id
    → (db'.items ≡ db.items) × ¬ (other.status ≡ RequestStatus.assigned)
unfolding get_request collides
cancel-strands env request_id item_id reason actor_id other_id db db' old result other valid found
      was_assigned had_item h other_found other_item =
    let o = of_Ensures (cancel-Rewritten env request_id reason actor_id db) (result, db') h in
    (
      ground (arith, o.database),
      λ e. ground (
        arith,
        o.database,
        o.request_found,
        o.result,
        find-key request_key request_id db.requests {x = old} found,
        find-key request_key other_id db.requests {x = other},
        find-replace request_key result other_id db.requests,
        valid.index_holds request_id other_id old other found,
        ==_refl item_id,
      ),
    )
