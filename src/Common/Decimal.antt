-- ===== src/Common/Decimal.antt =====
-- `%d` of `fmt`, and why it can be read back.
use Prim.Native.Nat.{◌/◌, ◌%◌}
use Prim.Native.Char.{code}
use Prim.Native.String.{◌++◌}
use Prim.Native.String as S
use mathlib.Core.Bool.{Bool, true, false}
use mathlib.Core.Path.{◌≡◌, refl, ◌∙◌, ap, sym}
use native.Mathlib.Omega.{arith}
use mathlib.Core.Logic.{inl, inr}
use text.Mathlib.TextLemmas.{cons-append, nil-append, append_cancel_left}
use Prim.Native.Nat.{ℕ, zero, suc, ◌+◌, ◌-◌, ◌*◌, ◌<◌}
use Prim.Native.String.{String}
use ctse_mood_rule_service.Common.Tests.{ltb, eqb, if◌then◌else◌, Bool-cases}
use ctse_mood_rule_service.Common.Int.{ℤ, pos, negsuc}

pub digit : ℕ → String
digit zero = "0"
digit (suc zero) = "1"
digit (suc (suc zero)) = "2"
digit (suc (suc (suc zero))) = "3"
digit (suc (suc (suc (suc zero)))) = "4"
digit (suc (suc (suc (suc (suc zero))))) = "5"
digit (suc (suc (suc (suc (suc (suc zero)))))) = "6"
digit (suc (suc (suc (suc (suc (suc (suc zero))))))) = "7"
digit (suc (suc (suc (suc (suc (suc (suc (suc zero)))))))) = "8"
digit (suc (suc (suc (suc (suc (suc (suc (suc (suc n))))))))) = "9"

-- The decimal digits of `n`, with fuel: a number has at most as many digits as its value and one.
pub digits : ℕ → ℕ → String
digits zero n = ""
digits (suc f) n =
    let higher = digits f (n / 10) in if ltb n 10 then digit n else higher ++ digit (n % 10)

unfoldable pub format_nat : ℕ → String
unfolding digits digit
format_nat n = digits (suc n) n

-- `fmt.Sprintf("%d", n)`
unfoldable pub format_int : ℤ → String
unfolding format_nat
format_int (pos n) = format_nat n
format_int (negsuc n) = "-" ++ format_nat (suc n)

-- The number that a text of digits spells behind `acc`.
read : ℕ → String → ℕ
read acc S.[] = acc
read acc (S.◌∷◌ c s) = read (acc * 10 + (code c - 48)) s

read-append : (acc : ℕ) (s t : String) → read acc (s ++ t) ≡ read (read acc s) t
unfolding read
read-append acc S.[] t = rw nil-append
read-append acc (S.◌∷◌ c s) t = rw cons-append (read-append (acc * 10 + (code c - 48)) s t)

read-digit : (acc d : ℕ) → d < 10 → read acc (digit d) ≡ acc * 10 + d
unfolding read digit
read-digit acc zero h = omega arith
read-digit acc (suc zero) h = omega arith
read-digit acc (suc (suc zero)) h = omega arith
read-digit acc (suc (suc (suc zero))) h = omega arith
read-digit acc (suc (suc (suc (suc zero)))) h = omega arith
read-digit acc (suc (suc (suc (suc (suc zero))))) h = omega arith
read-digit acc (suc (suc (suc (suc (suc (suc zero)))))) h = omega arith
read-digit acc (suc (suc (suc (suc (suc (suc (suc zero))))))) h = omega arith
read-digit acc (suc (suc (suc (suc (suc (suc (suc (suc zero)))))))) h = omega arith
read-digit acc (suc (suc (suc (suc (suc (suc (suc (suc (suc n))))))))) h = omega arith

read-digits : (f n : ℕ) → n < f → read 0 (digits f n) ≡ n
unfolding digits
read-digits zero n h = absurd (omega arith)
read-digits (suc f) n h = elim (Bool-cases (ltb n 10)) [
  | inl e ↦ rw e (omega (arith, read-digit 0 n (ground arith)))
  | inr e ↦
      rw (e, read-append, read-digits f (n / 10) (ground arith))
        (omega (arith, read-digit (n / 10) (n % 10) (omega arith)))
]

is_negative : String → Bool
is_negative S.[] = false
is_negative (S.◌∷◌ c s) = eqb (code c) 45

is_negative-digit : (d : ℕ) → is_negative (digit d) ≡ false
unfolding is_negative digit
is_negative-digit zero = refl
is_negative-digit (suc zero) = refl
is_negative-digit (suc (suc zero)) = refl
is_negative-digit (suc (suc (suc zero))) = refl
is_negative-digit (suc (suc (suc (suc zero)))) = refl
is_negative-digit (suc (suc (suc (suc (suc zero))))) = refl
is_negative-digit (suc (suc (suc (suc (suc (suc zero)))))) = refl
is_negative-digit (suc (suc (suc (suc (suc (suc (suc zero))))))) = refl
is_negative-digit (suc (suc (suc (suc (suc (suc (suc (suc zero)))))))) = refl
is_negative-digit (suc (suc (suc (suc (suc (suc (suc (suc (suc n))))))))) = refl

is_negative-append :
    (s : String) (d : ℕ) → is_negative s ≡ false → is_negative (s ++ digit d) ≡ false
unfolding is_negative
is_negative-append S.[] d h = rw nil-append (is_negative-digit d)
is_negative-append (S.◌∷◌ c s) d h = rw cons-append h

is_negative-digits : (f n : ℕ) → is_negative (digits f n) ≡ false
unfolding digits is_negative
is_negative-digits zero n = refl
is_negative-digits (suc f) n = elim (Bool-cases (ltb n 10)) [
  | inl e ↦ rw e (is_negative-digit n)
  | inr e ↦ rw e (is_negative-append (digits f (n / 10)) (n % 10) (is_negative-digits f (n / 10)))
]

format_nat-injective : (m n : ℕ) → format_nat m ≡ format_nat n → m ≡ n
unfolding format_nat
format_nat-injective m n h =
    sym (read-digits (suc m) m (omega arith)) ∙ ap (read 0) h ∙ read-digits (suc n) n (omega arith)

is_negative-format_nat : (n : ℕ) → is_negative (format_nat n) ≡ false
unfolding format_nat
is_negative-format_nat n = is_negative-digits (suc n) n

is_negative-minus : (s : String) → is_negative ("-" ++ s) ≡ true
unfolding is_negative
is_negative-minus s = rw cons-append

-- Two integers with one decimal print are equal.
pub format_int-injective : (a b : ℤ) → format_int a ≡ format_int b → a ≡ b
unfolding format_int
format_int-injective (pos m) (pos n) h = ap pos (format_nat-injective m n h)
format_int-injective (negsuc m) (negsuc n) h = ap negsuc (
    omega (
      arith,
      format_nat-injective (suc m) (suc n)
          (append_cancel_left "-" (format_nat (suc m)) (format_nat (suc n)) h),
    ))
format_int-injective (pos m) (negsuc n) h =
    cc (is_negative-format_nat m, is_negative-minus (format_nat (suc n)))
format_int-injective (negsuc m) (pos n) h =
    cc (is_negative-format_nat n, is_negative-minus (format_nat (suc m)))
