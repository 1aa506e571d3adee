-- ===== src/Result/Ensures.antt =====
-- What a handler that returns has made true, with one rule for each way to build a handler.
use asset_pilot_fastapi.Prelude.{
  inr, inl, ◌⊎◌, ◌⊎◌, ◌≡◌, refl, Bool, true, false, Option, none, some,
}
use mathlib.Core.Path.{subst}
use asset_pilot_fastapi.Result.{
  Error, Result, ok, err, ◌>>=◌, ◌>>◌, raise_if, or_raise, on_integrity_error,
}

pub data Ensures {A : Type 0} (P : A → Type 0) : Result A → Type 0 where
  returns : {a : A} → P a → Ensures P (ok a)
  raises : {e : Error} → Ensures P (err e)

module _ {A : Type 0} {P : A → Type 0} where
  ensured : {m : Result A} → Ensures P m → (a : A) → m ≡ ok a → P a
  ensured (returns {a = b} p) a e = subst P (cc) p
  ensured raises a e = cc

  pub of_Ensures : {m : Result A} → Ensures P m → (a : A) → m ≡ ok a → P a
  of_Ensures = ensured

  pub all_Ensures : (m : Result A) → ((a : A) → m ≡ ok a → P a) → Ensures P m
  all_Ensures (ok a) h = returns (h a refl)
  all_Ensures (err e) h = raises

module _ {A B : Type 0} {Q : B → Type 0} where
  -- The rest may use that the first part has returned its value.
  pub bind-Ensures :
      (m : Result A) (f : A → Result B)
      → ((a : A) → m ≡ ok a → Ensures Q (f a))
      → Ensures Q (m >>= f)
  unfolding ◌>>=◌
  bind-Ensures (ok a) f h = h a refl
  bind-Ensures (err e) f h = raises

  pub or_raise-Ensures :
      (o : Option A) (e : Error) (f : A → Result B)
      → ((a : A) → o ≡ some a → Ensures Q (f a))
      → Ensures Q (or_raise o e >>= f)
  unfolding ◌>>=◌ or_raise
  or_raise-Ensures (some a) e f h = h a refl
  or_raise-Ensures none e f h = raises

  -- What the `try` block returned was returned by its body.
  pub on_integrity_error-Ensures :
      (m : Result A) (e : Error) (f : A → Result B)
      → ((a : A) → m ≡ ok a → Ensures Q (f a))
      → Ensures Q (on_integrity_error m e >>= f)
  unfolding ◌>>=◌ on_integrity_error
  on_integrity_error-Ensures (ok a) e f h = h a refl
  on_integrity_error-Ensures (err Error.integrity_error) e f h = raises
  on_integrity_error-Ensures (err _) e f h = raises

module _ {B : Type 0} {Q : B → Type 0} where
  -- Past a test, the test has failed.
  pub raise_if-Ensures :
      (b : Bool) (e : Error) (k : Result B)
      → (b ≡ false → Ensures Q k)
      → Ensures Q (raise_if b e >> k)
  unfolding ◌>>=◌ raise_if
  raise_if-Ensures true e k h = raises
  raise_if-Ensures false e k h = h refl

-- The first part ensures `P`, and the rest relies on it.
module _ {A B : Type 0} {P : A → Type 0} {Q : B → Type 0} where
  pub then-Ensures :
      (m : Result A) (f : A → Result B)
      → Ensures P m
      → ((a : A) → P a → Ensures Q (f a))
      → Ensures Q (m >>= f)
  then-Ensures m f h k = bind-Ensures m f λ a e. k a (of_Ensures h a e)

  pub try-Ensures :
      (m : Result A) (e : Error) (f : A → Result B)
      → Ensures P m
      → ((a : A) → P a → Ensures Q (f a))
      → Ensures Q (on_integrity_error m e >>= f)
  try-Ensures m e f h k = on_integrity_error-Ensures m e f λ a p. k a (of_Ensures h a p)

-- A weaker statement.
pub map-Ensures :
    {A : Type 0} {P Q : A → Type 0} (m : Result A)
    → Ensures P m
    → ((a : A) → P a → Q a)
    → Ensures Q m
map-Ensures (ok a) (returns p) h = returns (h a p)
map-Ensures (err e) raises h = raises

pub Result-cases :
    {A : Type 0} (m : Result A) → ((a : A) × (m ≡ ok a)) ⊎ ((e : Error) × (m ≡ err e))
Result-cases (ok a) = inl (a, refl)
Result-cases (err e) = inr (e, refl)
