-- ===== src/Prelude/Strings.antt =====
-- Texts: the Boolean test of equality with the decision that it gives, and f-strings.
use Prim.Native.String.{String, ◌++◌}
use mathlib.Core.Path.{◌≡◌, refl}
use mathlib.Core.Bool.{Bool, true, false}
use text.Mathlib.TextEquality.{eq_iff}
use text.Mathlib.Text.{◌==◌}

abbrev pub str_eq : String → String → Bool
str_eq s t = s == t

pub str_eq_iff : (s t : String) → (str_eq s t ≡ true → s ≡ t) × (s ≡ t → str_eq s t ≡ true)
str_eq_iff s t = ((eq_iff s t).0, (eq_iff s t).1)

decide_by : (s t : String) (b : Bool) → str_eq s t ≡ b → Dec (s ≡ t)
decide_by s t true e = yes ((eq_iff s t).0 e)
decide_by s t false e = no (λ p. cc ((eq_iff s t).1 p))

unfoldable pub String-discrete : Discrete String
unfolding decide_by
String-discrete s t = decide_by s t (str_eq s t) refl

-- An f-string with one field, between two literals.
abbrev pub formatted : String → String → String → String
formatted before field after = before ++ field ++ after
