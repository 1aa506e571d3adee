-- ===== src/Ledger/OneRow.antt =====
-- One request that is rewritten or added is one step of the ledger.

use asset_pilot_fastapi.Repositories.Queries.RequestQueries.{is_active_for}
use asset_pilot_fastapi.Table.{find}
use asset_pilot_fastapi.Ledger.{Step, ledger}
use asset_pilot_fastapi.Models.{Request}
use asset_pilot_fastapi.Database.{request_key, Db}
use asset_pilot_fastapi.Prelude.{
  sym, ℕ_discrete, ◌∙◌, ◌∙◌, ap, inr, ◌⊎◌, ◌⊎◌, Option-cases, inl, ◌≡◌, ◌≡◌, Option, ℕ, true, none,
  some,
}
use asset_pilot_fastapi.Ledger.Rows.{
  active-held, held-active, ledger-cases, ledger-found, held, was_held, OneRow,
}
use asset_pilot_fastapi.Invariant.{IsValid}

module _ (db db' : Db) (valid : IsValid db) (valid' : IsValid db') (k0 : ℕ) (was : Option Request)
    (new : Request) (one : OneRow k0 was new db db') where
  -- A request that is stored as assigned before, and is another one, is stored so after.
  other_stays :
      (i k : ℕ) (r : Request)
      → ¬ (k ≡ k0)
      → find request_key k db.requests ≡ some r
      → is_active_for i r ≡ true
      → ledger db' i ≡ some k
  other_stays i k r other found active =
      ledger-found db' i k r valid' (one.others k other ∙ found) active

  pub now_holds : (i : ℕ) → held new ≡ some i → ledger db' i ≡ some k0
  now_holds i h = ledger-found db' i k0 new valid' one.now (held-active new i h)

  held_before : (i : ℕ) → was_held was ≡ some i → ledger db i ≡ some k0
  held_before i h = elim (Option-cases was) [
    | inl e ↦ (let nothing = ap was_held e in cc)
    | inr (old, e) ↦
        let its = ap was_held e in
        ledger-found db i k0 old valid (one.before ∙ e) (held-active old i (sym its ∙ h))
  ]

  -- Before, the request that is in the ledger under a device is the one that has changed, if it held the device.
  before-cases :
      (i : ℕ)
      → (ledger db i ≡ none)
        ⊎ (was_held was ≡ some i)
        ⊎ ((k : ℕ) × ¬ (k ≡ k0) × (ledger db i ≡ some k) × (ledger db' i ≡ some k))
  before-cases i = elim (ledger-cases db i valid) [
    | inr (empty, nobody) ↦ inl empty
    | inl (k, r, found, active, shown) ↦ elim (ℕ_discrete k k0) [
      | yes same ↦
          let was_r : was ≡ some r =
            sym one.before ∙ ap (λ (j : ℕ). find request_key j db.requests) (sym same) ∙ found in
          inr (inl (ap was_held was_r ∙ active-held r i active))
      | no other ↦ inr (inr (k, other, shown, other_stays i k r other found active))
    ]
  ]

  after-cases :
      (i : ℕ)
      → (ledger db' i ≡ none)
        ⊎ (held new ≡ some i)
        ⊎ ((k : ℕ) × ¬ (k ≡ k0) × (ledger db i ≡ some k) × (ledger db' i ≡ some k))
  after-cases i = elim (ledger-cases db' i valid') [
    | inr (empty, nobody) ↦ inl empty
    | inl (k, r, found, active, shown) ↦ elim (ℕ_discrete k k0) [
      | yes same ↦
          let is_new : some new ≡ some r =
            sym one.now ∙ ap (λ (j : ℕ). find request_key j db'.requests) (sym same) ∙ found in
          inr (inl (ap was_held is_new ∙ active-held r i active))
      | no other ↦ inr (
          inr (
            k,
            other,
            ledger-found db i k r valid (sym (one.others k other) ∙ found) active,
            shown,
          ))
    ]
  ]

  -- A device that the changed request holds neither before nor after.
  pub kept_elsewhere :
      (i : ℕ) → ¬ (was_held was ≡ some i) → ¬ (held new ≡ some i) → ledger db' i ≡ ledger db i
  kept_elsewhere i free free' = elim (before-cases i) [
    | inl empty ↦ elim (after-cases i) [
      | inl empty' ↦ empty' ∙ sym empty
      | inr (inl holds) ↦ absurd (free' holds)
      | inr (inr (k, other, shown, shown')) ↦ shown' ∙ sym shown
    ]
    | inr (inl holds) ↦ absurd (free holds)
    | inr (inr (k, other, shown, shown')) ↦ shown' ∙ sym shown
  ]

  pub was_free : (i : ℕ) → ¬ (was_held was ≡ some i) → held new ≡ some i → ledger db i ≡ none
  was_free i free holds = elim (before-cases i) [
    | inl empty ↦ empty
    | inr (inl held_it) ↦ absurd (free held_it)
    | inr (inr (k, other, shown, shown')) ↦ (let mine = now_holds i holds in absurd (other cc))
  ]

  now_free : (i : ℕ) → was_held was ≡ some i → ¬ (held new ≡ some i) → ledger db' i ≡ none
  now_free i held_it free = elim (after-cases i) [
    | inl empty ↦ empty
    | inr (inl holds) ↦ absurd (free holds)
    | inr (inr (k, other, shown, shown')) ↦ (let mine = held_before i held_it in absurd (other cc))
  ]

  pub OneRow-Step : Step (ledger db) (ledger db')
  OneRow-Step = elim (Option-cases (was_held was)) [
    | inl idle ↦ elim (Option-cases (held new)) [
      | inl idle' ↦ Step.kept (λ i. kept_elsewhere i (λ h. cc) (λ h. cc))
      | inr (i, e') ↦
          Step.taken i k0 (was_free i (λ h. cc) e') (now_holds i e')
            (λ j other. kept_elsewhere j (λ h. cc) (λ h. other cc))
    ]
    | inr (i, e) ↦ elim (Option-cases (held new)) [
      | inl idle' ↦
          Step.released i k0 (held_before i e) (now_free i e (λ h. cc))
            (λ j other. kept_elsewhere j (λ h. other cc) (λ h. cc))
      | inr (j, e') ↦ elim (ℕ_discrete i j) [
        | yes same ↦ Step.kept (λ m. elim (ℕ_discrete m i) [
          | yes at_i ↦
              (ap (ledger db') (at_i ∙ same) ∙ now_holds j e')
              ∙ sym (ap (ledger db) at_i ∙ held_before i e)
          | no elsewhere ↦ kept_elsewhere m (λ h. elsewhere cc) (λ h. elsewhere cc)
        ])
        | no differ ↦
            Step.swapped i j k0 (held_before i e) (was_free j (λ h. differ cc) e')
              (now_free i e (λ h. differ cc)) (now_holds j e')
              (λ m other other'. kept_elsewhere m (λ h. other cc) (λ h. other' cc))
      ]
    ]
  ]
