-- ===== src/Prelude/Decimal.antt =====
-- Decimal texts of `usize` values: `to_string` and `str::parse::<usize>`. A text is the list of its
-- bytes.
pub mod Digits
use Prim.Native.Nat.{ℕ, zero, suc, ◌+◌, ◌-◌, ◌*◌, ◌/◌, ◌%◌, ◌^◌, ◌≤◌, ◌<◌}
use mathlib.Core.Path.{◌≡◌, refl, ◌∙◌}
use mathlib.Core.Logic.{inl, inr}
use mathlib.Core.Bool.{true, false, not, ◌&&◌}
use mathlib.Core.Option.{Option, none, some}
use mathlib.Core.List.{List, [], ◌∷◌}
use native.Mathlib.Omega.{arith}
use fediway.Prelude.Tests.{ltb, leb, ltb→lt, lt→ltb, ◌==◌, if◌then◌else◌, Bool-cases}
use fediway.Prelude.Lists.{is_empty}

abbrev pub Text : Type 0
Text = List ℕ

-- The number of values of a `usize`, of 64 bits.
abbrev pub usize_values : ℕ
usize_values = 2 ^ 64

-- The quotient falls with every round, so `n + 1` rounds are enough.
print_digits : ℕ → ℕ → Text → Text
print_digits zero n rest = rest
print_digits (suc fuel) n rest =
    let more = print_digits fuel (n / 10) ((n % 10 + b'0') ∷ rest) in
    if ltb n 10 then (n + b'0') ∷ rest else more

unfoldable pub to_string : ℕ → Text
unfolding print_digits
to_string n = print_digits (suc n) n []

-- Overflow is an error, as any byte that is no digit.
parse_digits : ℕ → Text → Option ℕ
parse_digits acc [] = some acc
parse_digits acc (c ∷ cs) =
    let value = acc * 10 + (c - b'0') in
    let rest = parse_digits value cs in
    if leb b'0' c && leb c b'9' && ltb value usize_values then rest else none

-- One leading `+` is allowed before a digit; the empty text is an error.
unfoldable pub parse_usize : Text → Option ℕ
unfolding parse_digits
parse_usize [] = none
parse_usize (c ∷ cs) =
    if c == b'+' && not (is_empty cs) then parse_digits 0 cs else parse_digits 0 (c ∷ cs)

parse_digits-cons :
    (acc d n : ℕ) (rest : Text)
    → d < 10
    → n < usize_values
    → acc * 10 + d ≡ n
    → parse_digits acc ((d + b'0') ∷ rest) ≡ parse_digits n rest
unfolding parse_digits
parse_digits-cons acc d n rest h k e =
    let value : acc * 10 + (d + b'0' - b'0') ≡ n = omega arith in
    let low : leb b'0' (d + b'0') ≡ true = ground arith in
    let high : leb (d + b'0') b'9' ≡ true = ground arith in
    let fits : ltb n usize_values ≡ true = lt→ltb _ _ k in rw (value, low, high, fits) refl

parse_digits-print_digits :
    (fuel n : ℕ) (rest : Text)
    → n < fuel
    → n < usize_values
    → parse_digits 0 (print_digits fuel n rest) ≡ parse_digits n rest
unfolding print_digits
parse_digits-print_digits zero n rest h k = elim h [ ]
parse_digits-print_digits (suc fuel) n rest h k = elim (Bool-cases (ltb n 10)) [
  | inl e ↦ rw e (parse_digits-cons 0 n n rest (ltb→lt _ _ e) k (omega arith))
  | inr e ↦
      let ten : 10 ≤ n = ground arith in
      rw e (
        parse_digits-print_digits fuel (n / 10) ((n % 10 + b'0') ∷ rest) (omega arith) (omega arith)
        ∙ parse_digits-cons (n / 10) (n % 10) n rest (omega arith) k (omega arith))
]

print_digits-cons :
    (fuel n : ℕ) (rest : Text)
    → n < fuel
    → (d : ℕ) × (cs : Text) × (print_digits fuel n rest ≡ (d + b'0') ∷ cs)
unfolding print_digits
print_digits-cons zero n rest h = elim h [ ]
print_digits-cons (suc fuel) n rest h = elim (Bool-cases (ltb n 10)) [
  | inl e ↦ (n, rest, rw e refl)
  | inr e ↦
      let ten : 10 ≤ n = ground arith in
      rw e (print_digits-cons fuel (n / 10) ((n % 10 + b'0') ∷ rest) (omega arith))
]

-- A text that begins with a digit is read as digits from the start.
parse_usize-digit :
    (d : ℕ) (cs : Text) → parse_usize ((d + b'0') ∷ cs) ≡ parse_digits 0 ((d + b'0') ∷ cs)
unfolding parse_usize
parse_usize-digit d cs = let e : ((d + b'0') == b'+') ≡ false = ground arith in rw e refl

-- Reading back a printed number gives the number.
pub parse_usize-to_string : (n : ℕ) → n < usize_values → parse_usize (to_string n) ≡ some n
unfolding to_string parse_digits
parse_usize-to_string n h =
    let (d, cs, printed) = print_digits-cons (suc n) n [] (omega arith) in
    let read = parse_digits-print_digits (suc n) n [] (omega arith) h in
    rw printed (parse_usize-digit d cs ∙ rw printed at read)

pub to_string-cons : (n : ℕ) → (d : ℕ) × (cs : Text) × (to_string n ≡ (d + b'0') ∷ cs)
unfolding to_string
to_string-cons n = print_digits-cons (suc n) n [] (omega arith)
