-- ===== src/Ledger/Refinement.antt =====
-- Each call is a step of the ledger.
use asset_pilot_fastapi.Repositories.Queries.{order_by, first}
use asset_pilot_fastapi.Outcomes.Moves.{Moved}
use asset_pilot_fastapi.Invariant.Assignment.{assign-Keeps}
use asset_pilot_fastapi.Outcomes.Assignment.{assign-Assigned}
use asset_pilot_fastapi.Result.Ensures.{raise_if-Ensures, of_Ensures}
use asset_pilot_fastapi.Api.LifeCycle.{dispatch-Moved, commit-Moved}
use asset_pilot_fastapi.Result.{ok}
use asset_pilot_fastapi.Services.Assignment.{assign}
use asset_pilot_fastapi.Api.Reach.{Reach, Reach-IsValid}
use asset_pilot_fastapi.Table.Laws.{find-key, find-replace, find-append, find-replace_found}
use asset_pilot_fastapi.Repositories.{get_request}
use asset_pilot_fastapi.Api.{Call, handle, serve}
use asset_pilot_fastapi.Repositories.Queries.RequestQueries.{
  is_active_for, get_active_for_item, newest_first,
}
use asset_pilot_fastapi.Ledger.OneRow.{OneRow-Step, was_free, now_holds, kept_elsewhere}
use mathlib.Core.Path.{subst}
use asset_pilot_fastapi.Table.{HasUniqueKeys, replace, find}
use asset_pilot_fastapi.Ledger.{column, KeptBut, Step, ledger}
use asset_pilot_fastapi.Models.{Request}
use asset_pilot_fastapi.Database.{Env, request_key, Db}
use asset_pilot_fastapi.Prelude.{
  filter, ==_refl, ==_iff, Bool-cases, ◌==◌, ◌==◌, refl, arith, Bool, [], ◌∷◌, ◌∷◌, ◌++◌, List,
  ◌++◌, sym, ◌∙◌, ◌∙◌, ap, inr, inl, ◌≡◌, ◌≡◌, ℕ, false, none, some,
}
use asset_pilot_fastapi.Ledger.Rows.{held, OneRow}
use asset_pilot_fastapi.Invariant.{IsValid}

unique_append-free :
    (rows : List Request) (new : Request)
    → HasUniqueKeys request_key (rows ++ new ∷ [])
    → find request_key new.id rows ≡ none
unfolding find
unique_append-free [] new unique = refl
unique_append-free (r ∷ rows) new (free, unique) =
    ground (arith, free, find-append request_key new r.id rows, unique_append-free rows new unique)

not_key : (j k k0 : ℕ) → j ≡ k0 → ¬ (k ≡ k0) → (j == k) ≡ false
not_key j k k0 e other = elim (Bool-cases (j == k)) [
  | inl same ↦ absurd (other (sym ((==_iff j k).0 same) ∙ e))
  | inr differ ↦ differ
]

pub rewritten-OneRow :
    (db db' : Db) (k0 : ℕ) (old new : Request)
    → find request_key k0 db.requests ≡ some old
    → new.id ≡ old.id
    → db'.requests ≡ replace request_key new db.requests
    → OneRow k0 (some old) new db db'
rewritten-OneRow db db' k0 old new found same_key wrote = record {
  before = found;
  now =
      ap (find request_key k0) wrote
      ∙ find-replace_found request_key new k0 db.requests {old = old} found same_key;
  others = λ k other.
      ap (find request_key k) wrote
      ∙ find-replace request_key new k db.requests
      ∙ rw
          (not_key new.id k k0 (same_key ∙ find-key request_key k0 db.requests {x = old} found)
            other)
          refl;
}

added-OneRow :
    (db db' : Db) (new : Request)
    → IsValid db'
    → db'.requests ≡ db.requests ++ new ∷ []
    → OneRow new.id none new db db'
added-OneRow db db' new valid' wrote =
    let unique = subst (HasUniqueKeys request_key) wrote valid'.request_keys in
    let free = unique_append-free db.requests new unique in
    record {
      before = free;
      now =
          ap (find request_key new.id) wrote
          ∙ find-append request_key new new.id db.requests
          ∙ ground (arith, free, ==_refl new.id);
      others = λ k other.
          ap (find request_key k) wrote
          ∙ find-append request_key new k db.requests
          ∙ ground (arith, not_key new.id k new.id refl other);
    }

Moved-Step : (db db' : Db) → IsValid db → IsValid db' → Moved db db' → Step (ledger db) (ledger db')
unfolding ledger get_active_for_item
Moved-Step db db' valid valid' (Moved.same_rows e) = Step.kept (λ i.
    ap
      (λ (rows : List Request).
        column (λ (r : Request). r.id)
          (first (order_by newest_first (filter (is_active_for i) rows))))
      e)
Moved-Step db db' valid valid' (Moved.one_rewritten k0 old new found same_key moves wrote) =
    OneRow-Step db db' valid valid' k0 (some old) new
      (rewritten-OneRow db db' k0 old new found same_key wrote)
Moved-Step db db' valid valid' (Moved.one_added new wrote) =
    OneRow-Step db db' valid valid' new.id none new (added-OneRow db db' new valid' wrote)

-- Every call refines the ledger of devices: in a valid database, whatever a call does, and also if it raises, either the ledger stays as it is, or a device that was free is taken by one request, or one that was held is released, or one request swaps the device it holds for one that was free; and every other device stays as it is.
pub serve-Step :
    (env : Env) (call : Call) (db : Db)
    → IsValid db
    → Step (ledger db) (ledger (serve env call db).1)
unfolding serve handle
serve-Step env call db valid =
    Moved-Step db (serve env call db).1 valid (Reach-IsValid valid (Reach.step env call Reach.here))
      (commit-Moved db _ (raise_if-Ensures _ _ _ λ well_formed. dispatch-Moved env call db))

-- If `assign` returns in a valid database, then in the ledger the device was free, is now held by the request, and every other device is as it was.
pub assign-taken :
    (env : Env) (request_id item_id assigned_from assigned_to : ℕ) (is_wfh : Bool) (actor_id : ℕ)
    (db db' : Db) (result : Request)
    → IsValid db
    → assign env request_id item_id assigned_from assigned_to is_wfh actor_id db ≡ ok (result, db')
    → (ledger db item_id ≡ none)
      × (ledger db' item_id ≡ some request_id)
      × KeptBut item_id (ledger db) (ledger db')
unfolding get_request
assign-taken env request_id item_id assigned_from assigned_to is_wfh actor_id db db' result valid
      h =
    let o =
      of_Ensures
        (assign-Assigned env request_id item_id assigned_from assigned_to is_wfh actor_id db)
        (result, db') h in
    let valid' =
      of_Ensures
        (assign-Keeps env db valid request_id item_id assigned_from assigned_to is_wfh actor_id)
        (result, db') h in
    let one =
      rewritten-OneRow db db' request_id o.request result o.request_found (ground (arith, o.result))
        (ap (λ (d : Db). d.requests) o.database) in
    let idle : held o.request ≡ none = ground (arith, o.pending) in
    let holds : held result ≡ some item_id = ground (arith, o.result) in
    (
      was_free db db' valid valid' request_id (some o.request) result one item_id (λ e. cc) holds,
      now_holds db db' valid valid' request_id (some o.request) result one item_id holds,
      λ j other.
          kept_elsewhere db db' valid valid' request_id (some o.request) result one j (λ e. cc)
            (λ e. other cc),
    )
