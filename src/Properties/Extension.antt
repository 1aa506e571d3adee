-- ===== src/Properties/Extension.antt =====
-- Extensions of a booking: app/services/extension_service.py.
use asset_pilot_fastapi.Table.Laws.{find-replace_found}
use asset_pilot_fastapi.Table.{find}
use asset_pilot_fastapi.Outcomes.Extension.{approve-Approved}
use asset_pilot_fastapi.Result.Ensures.{of_Ensures}
use asset_pilot_fastapi.Enums.{ExtensionStatus}
use asset_pilot_fastapi.Models.{Request, ExtensionRequest}
use asset_pilot_fastapi.Prelude.{refl, arith, true, some, ◌≡◌, ◌≡◌, String, Option, ℕ}
use asset_pilot_fastapi.Database.{request_key, extension_key, Db, Env}
use asset_pilot_fastapi.Result.{conflict, err, ok, ◌>>=◌, raise_if, or_raise}
use asset_pilot_fastapi.Repositories.{get_request, get_extension_request}
use asset_pilot_fastapi.Services.Extension.{
  allows_it_approval, get_extension_or_404, approve, reject,
}

-- If `approve` returns, the extension was pending and its manager approved it or had not to; it is stored as approved by the actor; its request is stored with the extended end and is otherwise as before but for `updated_at`; the devices are as before; and a further decision on the extension, either way, raises a conflict.
pub approve-once :
    (env env' : Env) (extension_id : ℕ) (it_note it_note' : Option String) (actor_id actor_id' : ℕ)
    (db db' : Db) (result : ExtensionRequest)
    → approve env extension_id it_note actor_id db ≡ ok (result, db')
    → (extension : ExtensionRequest) × (parent : Request) × (time : ℕ) × (get_extension_request
          extension_id db
        ≡ some extension)
      × (extension.status ≡ ExtensionStatus.pending)
      × (allows_it_approval extension.mgr_approval_status ≡ true)
      × (get_extension_request extension_id db' ≡ some result)
      × (result.status ≡ ExtensionStatus.approved)
      × (result.it_decided_by ≡ some actor_id)
      × (get_request extension.original_request_id db ≡ some parent)
      × (get_request extension.original_request_id db'
          ≡ some (record parent { assigned_to = some extension.extended_to; updated_at = time }))
      × (db'.items ≡ db.items)
      × (approve env' extension_id it_note' actor_id' db'
          ≡ err (conflict "Only pending extension requests can be approved."))
      × (reject env' extension_id it_note' actor_id' db'
          ≡ err (conflict "Only pending extension requests can be rejected."))
unfolding approve reject get_extension_request get_request get_extension_or_404 or_raise raise_if
    ◌>>=◌
approve-once env env' extension_id it_note it_note' actor_id actor_id' db db' result h =
    let o = of_Ensures (approve-Approved env extension_id it_note actor_id db) (result, db') h in
    let stored : find extension_key extension_id db'.extension_requests ≡ some result = ground (
      arith,
      o.database,
      o.result,
      find-replace_found extension_key result extension_id db.extension_requests o.extension_found,
    ) in
    (
      o.extension,
      o.parent,
      o.parent_time,
      o.extension_found,
      o.pending,
      o.allowed,
      stored,
      ground (arith, o.result),
      ground (arith, o.result),
      o.parent_found,
      rw o.database (
          find-replace_found request_key
            (record o.parent {
              assigned_to = some o.extension.extended_to;
              updated_at = o.parent_time;
            })
            o.extension.original_request_id db.requests o.parent_found refl),
      ground (arith, o.database),
      ground (arith, stored, o.result),
      ground (arith, stored, o.result),
    )
