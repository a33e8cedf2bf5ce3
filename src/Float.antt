-- ===== src/Float.antt =====
-- `float64`, a type of the language that has no counterpart here: the carrier, the operations that
-- the source calls and the comparison `>` are a parameter of whatever computes with prices or
-- scores. `Float64Laws` states what IEEE 754 says of `>`, NaN included.
use ctse_mood_rule_service.Common.{◌≡◌, Bool, true, false}
use ctse_mood_rule_service.Common.Int.{ℤ, pos}

pub record Float64 (F : Type 0) : Type 0 where
  -- `float64(n)`, and the literals 0.0, 1.0 and 1000000.0
  pub of_int : ℤ → F
  pub add : F → F → F
  pub mul : F → F → F
  pub div : F → F → F
  -- `a > b` and `a >= b`, false if either side is NaN
  pub gt : F → F → Bool
  pub ge : F → F → Bool
  pub is_nan : F → Bool

pub record Float64Laws {F : Type 0} (o : Float64 F) : Type 0 where
  pub gt_asymm : (a b : F) → o.gt a b ≡ true → o.gt b a ≡ false
  -- `a ≤ b ≤ c` as failures of `>`: it needs the middle to be a number
  pub gt_trans :
      (a b c : F) → o.is_nan b ≡ false → o.gt a b ≡ false → o.gt b c ≡ false → o.gt a c ≡ false
  -- a comparison with NaN fails
  pub gt_numbers : (a b : F) → o.gt a b ≡ true → (o.is_nan a ≡ false) × (o.is_nan b ≡ false)
  pub of_int_number : (n : ℤ) → o.is_nan (o.of_int n) ≡ false
  pub million_pos : o.gt (o.of_int (pos 1_000_000)) (o.of_int (pos 0)) ≡ true
