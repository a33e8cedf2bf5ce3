-- ===== src/Common/Text.antt =====
-- Native strings: their equality is decidable, so they form a set.
use Prim.Native.String.{String}
use mathlib.Core.HLevel.{hedberg}
use mathlib.Core.Logic.{inl, inr}
use text.Mathlib.Text.{◌==◌}
use text.Mathlib.TextEquality.{eq_iff}
use ctse_mood_rule_service.Common.Tests.{Bool-cases}

pub String-discrete : Discrete String
String-discrete s t = elim (Bool-cases (s == t)) [
  | inl e ↦ yes ((eq_iff s t).0 e)
  | inr e ↦ no (λ p. cc ((eq_iff s t).1 p))
]

pub String-set : IsSet String
String-set = hedberg String-discrete
