-- ===== src/Result.antt =====
-- app/core/exceptions.py: what a handler raises, as a value, and the sequencing of handlers.
pub mod Ensures
use asset_pilot_fastapi.Prelude.{ℕ, String, Bool, true, false, Option, none, some}

-- The exception classes that handlers raise. `integrity_error` is SQLAlchemy's IntegrityError,
-- `multiple_results` its MultipleResultsFound, and `assertion_error` and `value_error` are Python's, which no handler of the application turns into an AppException.
pub data Error : Type 0 where
  validation unauthorized forbidden not_found conflict : String → Error
  integrity_error assertion_error value_error multiple_results : Error

pub data Result {ℓ} (A : Type ℓ) : Type ℓ where
  ok : A → Result A
  err : Error → Result A

-- `if test: raise error`.
unfoldable pub raise_if : Bool → Error → Result (Unit {0})
raise_if true e = err e
raise_if false e = ok tt

-- `if value is None: raise error`.
unfoldable pub or_raise {ℓ} : {A : Type ℓ} → Option A → Error → Result A
or_raise none e = err e
or_raise (some a) e = ok a

-- What follows a step that may raise, with and without its value.
infixl 5 ◌>>◌ ◌>>=◌
unfoldable pub ◌>>=◌ {ℓ κ} : {X : Type ℓ} {Y : Type κ} → Result X → (X → Result Y) → Result Y
err raised >>= rest = err raised
ok value >>= rest = rest value

abbrev pub ◌>>◌ {ℓ} : {Y : Type ℓ} → Result (Unit {0}) → Result Y → Result Y
checked >> rest = checked >>= λ _. rest

-- `except IntegrityError as exc: raise error from exc`.
unfoldable pub on_integrity_error {ℓ} : {A : Type ℓ} → Result A → Error → Result A
on_integrity_error (ok a) e = ok a
on_integrity_error (err integrity_error) e = err e
on_integrity_error (err other) e = err other

-- The status code and machine-readable code of the response that a raised error becomes.
unfoldable pub status_code : Error → ℕ
status_code (validation m) = 422
status_code (unauthorized m) = 401
status_code (forbidden m) = 403
status_code (not_found m) = 404
status_code (conflict m) = 409
status_code integrity_error = 500
status_code assertion_error = 500
status_code value_error = 500
status_code multiple_results = 500
