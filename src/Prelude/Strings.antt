-- ===== src/Prelude/Strings.antt =====
-- Equality tests on texts, and sets of texts as lists.
use Prim.Native.Nat.{ℕ, zero, suc, ◌+◌, ◌/◌, ◌%◌}
use Prim.Native.String.{String, slice}
pub use Prim.Native.String.{◌++◌ as ◌<>◌}
use mathlib.Core.Path.{◌≡◌, refl}
use mathlib.Core.Bool.{Bool, true, false, ◌||◌}
use mathlib.Core.List.{List, [], ◌∷◌}
use fediway.Prelude.Lists.{is_empty}
use fediway.Prelude.Tests.{ltb, if◌then◌else◌}
use fediway.Prelude.Int.{ℤ, pos, negsuc}
use text.Mathlib.Text.{◌==◌}
use text.Mathlib.TextEquality.{eq_iff}
pub use text.Mathlib.TextEquality.{eq_iff as str_eq_iff}

abbrev pub str_eq : String → String → Bool
str_eq s t = s == t

pub str_eq_self : (s : String) → str_eq s s ≡ true
str_eq_self s = (eq_iff s s).1 refl

-- `HashSet::contains`, the set as the list of what was inserted.
unfoldable pub contains : List String → String → Bool
contains [] s = false
contains (t ∷ ts) s = str_eq t s || contains ts s

pub contains-cons :
    (t : String) (ts : List String) (s : String)
    → contains (t ∷ ts) s ≡ (str_eq t s || contains ts s)
unfolding contains
contains-cons t ts s = refl

abbrev digit : ℕ → String
digit d = slice "0123456789" d (d + 1)

pub contains-empty : (xs : List String) (t : String) → is_empty xs ≡ true → contains xs t ≡ false
unfolding contains
contains-empty [] t h = refl
contains-empty (x ∷ xs) t h = cc

-- The quotient falls with every round, so `n + 1` rounds are enough.
display_digits : ℕ → ℕ → String → String
display_digits zero n rest = rest
display_digits (suc fuel) n rest =
    let more = display_digits fuel (n / 10) (digit (n % 10) <> rest) in
    if ltb n 10 then digit n <> rest else more

-- `{}` of an integer, as a native text.
unfoldable pub display : ℤ → String
unfolding display_digits
display (pos n) = display_digits (suc n) n ""
display (negsuc n) = "-" <> display_digits (suc (suc n)) (suc n) ""

display_run : display (negsuc 129) ≡ "-130"
unfolding display
display_run = refl
