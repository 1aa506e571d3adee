-- ===== src/Invariant/Index.antt =====
-- The partial unique index on requests when a row is rewritten, added or stamped.

use asset_pilot_fastapi.Prelude.{
  refl, inr, inl, Option-cases, ◌==◌, ◌∷◌, ◌++◌, Bool-cases, any, arith, ℕ, ◌≡◌, false, List, [],
}
use asset_pilot_fastapi.Models.{Request}
use asset_pilot_fastapi.Table.{find, replace}
use asset_pilot_fastapi.Table.Laws.{find-replace, find-append, any-find}
use asset_pilot_fastapi.Database.{request_key, collides}
use asset_pilot_fastapi.Invariant.{IndexHolds}

collides_comm : (r x : Request) → collides r x ≡ collides x r
unfolding collides
collides_comm r x = ground arith

collides_self : (r x : Request) → r.id ≡ x.id → collides r x ≡ false
unfolding collides
collides_self r x e = ground arith

-- `updated_at` is no part of the index entry.
collides_stamped : (r x : Request) (t : ℕ) → collides (record r { updated_at = t }) x ≡ collides r x
unfolding collides
collides_stamped r x t = ground arith

pub replace-IndexHolds :
    (r : Request) (rows : List Request)
    → IndexHolds rows
    → any (collides r) rows ≡ false
    → IndexHolds (replace request_key r rows)
replace-IndexHolds r rows h free a b x y ex ey = elim (Bool-cases (r.id == a)) [
  | inl ea ↦ elim (Bool-cases (r.id == b)) [
    | inl eb ↦ ground (
      arith,
      find-replace request_key r a rows,
      find-replace request_key r b rows,
      collides_self x y,
    )
    | inr eb ↦ ground (
      arith,
      find-replace request_key r a rows,
      find-replace request_key r b rows,
      any-find request_key (collides r) b rows {x = y},
    )
  ]
  | inr ea ↦ elim (Bool-cases (r.id == b)) [
    | inl eb ↦ ground (
      arith,
      find-replace request_key r a rows,
      find-replace request_key r b rows,
      any-find request_key (collides r) a rows {x = x},
      collides_comm x r,
    )
    | inr eb ↦
        ground
          (arith, find-replace request_key r a rows, find-replace request_key r b rows, h a b x y)
  ]
]

pub append-IndexHolds :
    (r : Request) (rows : List Request)
    → IndexHolds rows
    → any (collides r) rows ≡ false
    → IndexHolds (rows ++ r ∷ [])
append-IndexHolds r rows h free a b x y ex ey = elim (Option-cases (find request_key a rows)) [
  | inl ea ↦ elim (Option-cases (find request_key b rows)) [
    | inl eb ↦ ground (
      arith,
      find-append request_key r a rows,
      find-append request_key r b rows,
      collides_self x y,
    )
    | inr (y', eb) ↦ ground (
      arith,
      find-append request_key r a rows,
      find-append request_key r b rows,
      any-find request_key (collides r) b rows {x = y},
    )
  ]
  | inr (x', ea) ↦ elim (Option-cases (find request_key b rows)) [
    | inl eb ↦ ground (
      arith,
      find-append request_key r a rows,
      find-append request_key r b rows,
      any-find request_key (collides r) a rows {x = x},
      collides_comm x r,
    )
    | inr (y', eb) ↦
        ground
          (arith, find-append request_key r a rows, find-append request_key r b rows, h a b x y)
  ]
]

pub free_of_stamp :
    (r : Request) (t : ℕ) (rows : List Request)
    → any (collides r) rows ≡ false
    → any (collides (record r { updated_at = t })) rows ≡ false
free_of_stamp r t [] h = refl
free_of_stamp r t (x ∷ rows) h = ground (arith, collides_stamped r x t, free_of_stamp r t rows)
