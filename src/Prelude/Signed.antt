-- ===== src/Prelude/Signed.antt =====
-- `str::parse::<i64>` and `str::parse::<u64>` of a native text, and `to_string` of an `i64`.
pub mod Printed
use Prim.Native.Nat.{ℕ, zero, suc, ◌+◌, ◌-◌, ◌*◌, ◌^◌}
use Prim.Native.Char.{code}
use Prim.Native.String.{String}
use mathlib.Core.Path.{◌≡◌, refl}
use mathlib.Core.Bool.{◌&&◌}
use mathlib.Core.Option
use mathlib.Core.Option.{Option, none, some}
use mathlib.Core.List.{[], ◌∷◌}
use fediway.Prelude.Tests.{leb, ◌==◌, if◌then◌else◌}
use fediway.Prelude.Int.{ℤ, pos, negsuc}
use fediway.Prelude.Decimal.{Text, to_string, parse_usize}

-- The code points of a text.
abbrev pub codes : String → Text
codes String.[] = []
codes (String.◌∷◌ c s) = code c ∷ codes s

-- Digits up to a bound; anything above it is an overflow, and an error.
parse_up_to : ℕ → ℕ → Text → Option ℕ
parse_up_to bound acc [] = some acc
parse_up_to bound acc (c ∷ cs) =
    let value = acc * 10 + (c - b'0') in
    let rest = parse_up_to bound value cs in
    if leb b'0' c && leb c b'9' && leb value bound then rest else none

-- At least one digit.
digits_up_to : ℕ → Text → Option ℕ
unfolding parse_up_to
digits_up_to bound [] = none
digits_up_to bound (c ∷ cs) = parse_up_to bound 0 (c ∷ cs)

abbrev negate : ℕ → ℤ
negate zero = pos 0
negate (suc n) = negsuc n

unfoldable pub parse_i64 : Text → Option ℤ
unfolding digits_up_to
parse_i64 [] = none
parse_i64 (c ∷ cs) =
    let positive = Option.map pos (digits_up_to (2 ^ 63 - 1) cs) in
    let negative = Option.map negate (digits_up_to (2 ^ 63) cs) in
    let unsigned = Option.map pos (digits_up_to (2 ^ 63 - 1) (c ∷ cs)) in
    if c == b'+' then positive else if c == b'-' then negative else unsigned

-- A `u64` has the values of a `usize`.
unfoldable pub parse_u64 : Text → Option ℕ
unfolding parse_usize
parse_u64 s = parse_usize s

parse_run : parse_i64 (codes "-9223372036854775808") ≡ some (negsuc 9223372036854775807)
unfolding parse_i64
parse_run = refl

overflow_run : parse_i64 (codes "9223372036854775808") ≡ none
unfolding parse_i64
overflow_run = refl

-- `to_string` of an `i64`.
unfoldable pub to_text : ℤ → Text
to_text (pos n) = to_string n
to_text (negsuc n) = b'-' ∷ to_string (suc n)
