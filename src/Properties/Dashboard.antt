-- ===== src/Properties/Dashboard.antt =====
-- The counts of app/services/dashboard_service.py.
use asset_pilot_fastapi.Services.Lookup.{device_is}
use asset_pilot_fastapi.Models.{Item}
use asset_pilot_fastapi.Database.{Db}
use asset_pilot_fastapi.Repositories.Queries.ItemQueries.{count_by_status}
use asset_pilot_fastapi.Enums.{DeviceStatus-discrete, DeviceStatus}
use asset_pilot_fastapi.Views.Dashboard.{count_or_zero, get_summary}
use asset_pilot_fastapi.Prelude.{
  inr, refl, ==_iff, ap, inl, [], ◌∙◌, ◌==◌, filter, suc, ◌∙◌, ◌==◌, arith, ◌∷◌, ◌∷◌, Bool-cases,
  length, ◌+◌, ◌≡◌, ◌+◌, ◌≡◌, ℕ, String, List,
}

abbrev pub with_status : DeviceStatus → List Item → ℕ
with_status status items = length (filter (λ (i : Item). device_is i.status status) items)

count_or_zero-count_by_status :
    (db : Db) (status : DeviceStatus)
    → count_or_zero (count_by_status db status) ≡ with_status status db.items
unfolding count_by_status
count_or_zero-count_by_status db status = elim (Bool-cases (with_status status db.items == 0)) [
  | inl e ↦ (let zero_count = (==_iff (with_status status db.items) 0).0 e in ground arith)
  | inr e ↦ ground (arith, e)
]

abbrev pub total : List (String × ℕ) → ℕ
total [] = 0
total ((status, n) ∷ counts) = n + total counts

abbrev everywhere : List Item → ℕ
everywhere items =
    with_status DeviceStatus.available items
    + (with_status DeviceStatus.assigned items
        + (with_status DeviceStatus.under_repair items
            + (with_status DeviceStatus.maintenance items
                + (with_status DeviceStatus.shipping_pending items
                    + (with_status DeviceStatus.return_shipping_pending items
                        + (with_status DeviceStatus.lost items
                            + (with_status DeviceStatus.retired items
                                + with_status DeviceStatus.returned_to_client items)))))))

one_more :
    (s : DeviceStatus) (i : Item) (items : List Item)
    → i.status ≡ s
    → everywhere (i ∷ items) ≡ suc (everywhere items)
unfolding DeviceStatus-discrete
one_more DeviceStatus.available i items e = ground (arith, e)
one_more _ i items e = ground (arith, e)

everywhere-all : (items : List Item) → everywhere items ≡ length items
everywhere-all [] = refl
everywhere-all (i ∷ items) = one_more i.status i items refl ∙ ap suc (everywhere-all items)

-- The counts of the dashboard miss no device and count none twice: together with the devices that are back with their client, which it leaves out, they add up to the number of all devices.
pub status_breakdown-total :
    (db : Db)
    → total (get_summary db).status_breakdown + with_status DeviceStatus.returned_to_client db.items
      ≡ length db.items
unfolding get_summary
status_breakdown-total db = omega (
  arith,
  everywhere-all db.items,
  count_or_zero-count_by_status db DeviceStatus.available,
  count_or_zero-count_by_status db DeviceStatus.assigned,
  count_or_zero-count_by_status db DeviceStatus.under_repair,
  count_or_zero-count_by_status db DeviceStatus.maintenance,
  count_or_zero-count_by_status db DeviceStatus.shipping_pending,
  count_or_zero-count_by_status db DeviceStatus.return_shipping_pending,
  count_or_zero-count_by_status db DeviceStatus.lost,
  count_or_zero-count_by_status db DeviceStatus.retired,
)
