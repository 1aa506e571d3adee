-- ===== src/Properties/Queries.antt =====
-- What the listings show: app/repositories/ and the read methods of app/services/.

use asset_pilot_fastapi.Table.Laws.{any-find}
use asset_pilot_fastapi.Repositories.Queries.Laws.{any-filter, any-order_by}
use asset_pilot_fastapi.Table.{find}
use asset_pilot_fastapi.Repositories.Queries.Each.{
  first-Each, find-Each, filter-Each, order_by-Each,
}
use asset_pilot_fastapi.Enums.{RequestStatus}
use asset_pilot_fastapi.Models.{Request}
use asset_pilot_fastapi.Database.{request_key, Db, collides}
use asset_pilot_fastapi.Repositories.{get_request}
use asset_pilot_fastapi.Repositories.Queries.{first, order_by}
use asset_pilot_fastapi.Repositories.Queries.RequestQueries.{
  newest_first, is_active_for, get_active_for_item,
}
use asset_pilot_fastapi.Invariant.{IsValid}
use asset_pilot_fastapi.Prelude.{
  sym, ◌&&◌, ◌&&◌, ==_iff, is_id, Option, ap, [], ◌∙◌, ==_refl, ◌∙◌, List, ◌↔◌, ◌↔◌, arith, Bool,
  inr, inl, any, filter, ◌≡◌, ◌≡◌, ℕ, true, false, none, some,
}

pub is_id-true : (o : Option ℕ) (k : ℕ) → is_id o k ≡ true → o ≡ some k
is_id-true none k h = cc
is_id-true (some j) k h = ap some ((==_iff j k).0 h)

pub is_active_for-true :
    (item_id : ℕ) (r : Request)
    → is_active_for item_id r ≡ true
    → (r.status ≡ RequestStatus.assigned) × (r.assigned_item_id ≡ some item_id)
unfolding is_active_for
is_active_for-true item_id r h =
    (ground (arith, h), is_id-true r.assigned_item_id item_id (ground (arith, h)))

pub is_active_for_if :
    (item_id : ℕ) (r : Request)
    → r.status ≡ RequestStatus.assigned
    → r.assigned_item_id ≡ some item_id
    → is_active_for item_id r ≡ true
unfolding is_active_for
is_active_for_if item_id r is_assigned has_item = ground (arith, ==_refl item_id)

-- Two requests that are assigned one device are one request.
pub active_once :
    (db : Db) (item_id : ℕ) (r s : Request)
    → IsValid db
    → find request_key r.id db.requests ≡ some r
    → find request_key s.id db.requests ≡ some s
    → is_active_for item_id r ≡ true
    → is_active_for item_id s ≡ true
    → r ≡ s
unfolding collides
active_once db item_id r s valid r_found s_found r_active s_active =
    let (r_on, r_item) = is_active_for-true item_id r r_active in
    let (s_on, s_item) = is_active_for-true item_id s s_active in
    ground (arith, valid.index_holds r.id s.id r s r_found s_found, ==_refl item_id)

-- Some row is there if one that is found passes the test.
filtered_there :
    (p : Request → Bool) (after : Request → Request → Bool) (k : ℕ) (xs : List Request)
    (r : Request)
    → find request_key k xs ≡ some r
    → p r ≡ true
    → ¬ (order_by after (filter p xs) ≡ [])
filtered_there p after k xs r found passed empty =
    let there : any p (order_by after (filter p xs)) ≡ false = ap (any p) empty in
    let selected = any-order_by p after (filter p xs) in
    let both_tests = any-filter p p xs in
    ground (
      arith,
      any-find request_key (λ x. p x && p x) k xs {x = r} (sym both_tests ∙ sym selected ∙ there)
          found,
    )

-- In a valid database, the current request of a device, as its page shows it, is a request exactly if this request is stored as assigned with the device: the order and the limit of the query choose nothing.
pub get_active_for_item-assigned :
    (db : Db) (item_id : ℕ) (r : Request)
    → IsValid db
    → (get_active_for_item item_id db ≡ some r) ↔ (
        (get_request r.id db ≡ some r)
        × (r.status ≡ RequestStatus.assigned)
        × (r.assigned_item_id ≡ some item_id))
unfolding get_active_for_item get_request
get_active_for_item-assigned db item_id r valid =
    let active = filter (is_active_for item_id) db.requests in
    let stored = order_by-Each newest_first active (
      filter-Each (is_active_for item_id) db.requests
        (find-Each request_key db.requests valid.request_keys)) in
    (
      λ e. elim (first-Each (order_by newest_first active) stored) [
        | inl empty ↦ (let nothing = ap first empty in cc)
        | inr (x, (x_found, x_active), e') ↦
            let same : x ≡ r = cc in
            let (on, item) = is_active_for-true item_id x x_active in (cc, cc, cc)
      ],
      λ (found, on, item).
          let r_active = is_active_for_if item_id r on item in
          elim (first-Each (order_by newest_first active) stored) [
            | inl empty ↦ absurd (
                filtered_there (is_active_for item_id) newest_first r.id db.requests r found
                  r_active empty)
            | inr (x, (x_found, x_active), e') ↦
                e' ∙ ap some (active_once db item_id x r valid x_found found x_active r_active)
          ],
    )
