-- ===== src/Prelude/Signed/Printed.antt =====
-- Reading back a printed `i64`.
use Prim.Native.Nat.{ℕ, suc, ◌+◌, ◌-◌, ◌*◌, ◌^◌, ◌≤◌, ◌<◌}
use mathlib.Core.Path.{◌≡◌, refl, ap, ◌∙◌}
use mathlib.Core.Bool.{false}
use mathlib.Core.Option.{some}
use mathlib.Core.List.{[], ◌∷◌}
use native.Mathlib.Omega.{arith}
use fediway.Prelude.Tests.{◌==◌}
use fediway.Prelude.Lists.{All}
use fediway.Prelude.Int.{ℤ, pos, negsuc}
use fediway.Prelude.Decimal.{Text, to_string, to_string-cons}
use fediway.Prelude.Decimal.Digits.{value_from, value_from-to_string, IsDigit, to_string-IsDigit}
use fediway.Prelude.Signed.{parse_up_to, digits_up_to, parse_i64, to_text}

-- The values of an `i64`.
abbrev pub IsI64 : ℤ → Type 0
IsI64 (pos n) = n < 2 ^ 63
IsI64 (negsuc n) = n < 2 ^ 63

le-value_from : (acc : ℕ) (s : Text) → acc ≤ value_from acc s
le-value_from acc [] = omega arith
le-value_from acc (c ∷ s) = omega (arith, le-value_from (acc * 10 + (c - b'0')) s)

parse_up_to-value_from :
    (bound acc : ℕ) (s : Text)
    → All IsDigit s
    → value_from acc s ≤ bound
    → parse_up_to bound acc s ≡ some (value_from acc s)
unfolding parse_up_to
parse_up_to-value_from bound acc [] h k = refl
parse_up_to-value_from bound acc (c ∷ s) h k =
    let below = le-value_from (acc * 10 + (c - b'0')) s in
    ground (arith, below, parse_up_to-value_from bound (acc * 10 + (c - b'0')) s h.1 k)

digits_up_to-to_string : (bound n : ℕ) → n ≤ bound → digits_up_to bound (to_string n) ≡ some n
unfolding digits_up_to
digits_up_to-to_string bound n h =
    let (d, cs, printed) = to_string-cons n in
    let digits : All IsDigit ((d + b'0') ∷ cs) = rw printed at (to_string-IsDigit n) in
    let value : value_from 0 ((d + b'0') ∷ cs) ≡ n = rw printed at (value_from-to_string n) in
    rw printed (
      parse_up_to-value_from bound 0 ((d + b'0') ∷ cs) digits (omega (arith, value))
      ∙ ap some value)

pub parse_i64-to_text : (v : ℤ) → IsI64 v → parse_i64 (to_text v) ≡ some v
unfolding parse_i64 to_text
parse_i64-to_text (pos n) h =
    let (d, cs, printed) = to_string-cons n in
    let read = rw printed at (digits_up_to-to_string (2 ^ 63 - 1) n (omega arith)) in
    let plus : ((d + b'0') == b'+') ≡ false = ground arith in
    let minus : ((d + b'0') == b'-') ≡ false = ground arith in rw (printed, plus, minus, read) refl
parse_i64-to_text (negsuc n) h = rw (digits_up_to-to_string (2 ^ 63) (suc n) (omega arith)) refl
