-- ===== src/Prelude/Decimal/Digits.antt =====
-- The digits of a printed number: their value, their count, and that they are digits.
use Prim.Native.Nat.{ℕ, zero, suc, ◌+◌, ◌-◌, ◌*◌, ◌/◌, ◌%◌, ◌≤◌, ◌<◌}
use mathlib.Core.Path.{◌≡◌, ap, ◌∙◌}
use mathlib.Core.Logic.{inl, inr}
use mathlib.Core.Bool.{true}
use mathlib.Core.List.{[], ◌∷◌}
use native.Mathlib.Omega.{arith}
use fediway.Prelude.Tests.{ltb, ltb→lt, lt→ltb, Bool-cases}
use fediway.Prelude.Lists.{length, All}
use fediway.Prelude.Decimal.{Text, to_string, print_digits}

-- The value of a text of digits, read on from a value.
abbrev pub value_from : ℕ → Text → ℕ
value_from acc [] = acc
value_from acc (c ∷ cs) = value_from (acc * 10 + (c - b'0')) cs

value_from-print_digits :
    (fuel n : ℕ) (rest : Text)
    → n < fuel
    → value_from 0 (print_digits fuel n rest) ≡ value_from n rest
unfolding print_digits
value_from-print_digits zero n rest h = elim h [ ]
value_from-print_digits (suc fuel) n rest h = elim (Bool-cases (ltb n 10)) [
  | inl e ↦
      let digit : 0 * 10 + (n + b'0' - b'0') ≡ n = omega arith in
      rw e (ap (λ m. value_from m rest) digit)
  | inr e ↦
      let ten : 10 ≤ n = ground arith in
      let whole : n / 10 * 10 + (n % 10 + b'0' - b'0') ≡ n = omega arith in
      rw e (
        value_from-print_digits fuel (n / 10) ((n % 10 + b'0') ∷ rest) (omega arith)
        ∙ ap (λ m. value_from m rest) whole)
]

abbrev pub IsDigit : ℕ → Type 0
IsDigit c = (b'0' ≤ c) × (c ≤ b'9')

print_digits-IsDigit :
    (fuel n : ℕ) (rest : Text) → All IsDigit rest → All IsDigit (print_digits fuel n rest)
unfolding print_digits
print_digits-IsDigit zero n rest h = h
print_digits-IsDigit (suc fuel) n rest h = elim (Bool-cases (ltb n 10)) [
  | inl e ↦ let small : n < 10 = ltb→lt n 10 e in rw e ((omega arith, omega arith), h)
  | inr e ↦
      rw e (
        print_digits-IsDigit fuel (n / 10) ((n % 10 + b'0') ∷ rest) ((omega arith, omega arith), h))
]

abbrev pub power_of_ten : ℕ → ℕ
power_of_ten zero = 1
power_of_ten (suc k) = 10 * power_of_ten k

length-print_digits :
    (fuel n k : ℕ) (rest : Text)
    → n < power_of_ten (suc k)
    → length (print_digits fuel n rest) ≤ suc k + length rest
unfolding print_digits
length-print_digits zero n k rest h = omega arith
length-print_digits (suc fuel) n zero rest h =
    let small : ltb n 10 ≡ true = lt→ltb n 10 (omega arith) in rw small (omega arith)
length-print_digits (suc fuel) n (suc k) rest h = elim (Bool-cases (ltb n 10)) [
  | inl e ↦ rw e (omega arith)
  | inr e ↦
      let less : n / 10 < power_of_ten (suc k) = omega arith in
      let shorter = length-print_digits fuel (n / 10) k ((n % 10 + b'0') ∷ rest) less in
      rw e (omega (arith, shorter))
]

pub value_from-to_string : (n : ℕ) → value_from 0 (to_string n) ≡ n
unfolding to_string
value_from-to_string n = value_from-print_digits (suc n) n [] (omega arith)

pub to_string-IsDigit : (n : ℕ) → All IsDigit (to_string n)
unfolding to_string
to_string-IsDigit n = print_digits-IsDigit (suc n) n [] tt

pub length-to_string : (n k : ℕ) → n < power_of_ten (suc k) → length (to_string n) ≤ suc k
unfolding to_string
length-to_string n k h = let bound = length-print_digits (suc n) n k [] h in omega (arith, bound)
