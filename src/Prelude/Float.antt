-- ===== src/Prelude/Float.antt =====
-- The operations on `f64` and `f32` that the program uses, as an interface, and the laws of the
-- IEEE comparison that the theorems assume of it.
use Prim.Native.Nat.{ℕ, Ordering}
use mathlib.Core.Path.{◌≡◌}
use mathlib.Core.Logic.{◌≢◌}
use mathlib.Core.Bool.{Bool, true, false}
use mathlib.Core.Option
use mathlib.Core.Option.{Option, none, some}

pub record Float (F : Type 0) : Type 0 where
  pub zero : F
  pub neg_infinity : F
  pub of_nat : ℕ → F
  pub add : F → F → F
  pub sub : F → F → F
  pub mul : F → F → F
  pub div : F → F → F
  pub mul_add : F → F → F → F
  pub sqrt : F → F
  pub epsilon : F
  pub is_nan : F → Bool
  pub partial_cmp : F → F → Option Ordering

abbrev pub swap : Ordering → Ordering
swap Ordering.lt = Ordering.gt
swap Ordering.eq = Ordering.eq
swap Ordering.gt = Ordering.lt

module _ {F : Type 0} ⦃fl : Float F⦄ where
  -- `a < b` and `a <= b`, false where one side is NaN.
  abbrev pub flt : F → F → Bool
  flt a b = elim (fl.partial_cmp a b) [
    | none ↦ false
    | some o ↦ elim o [ Ordering.lt ↦ true | _ ↦ false ]
  ]

  abbrev pub fle : F → F → Bool
  fle a b = elim (fl.partial_cmp a b) [
    | none ↦ false
    | some o ↦ elim o [ Ordering.gt ↦ false | _ ↦ true ]
  ]

  -- `a > b`
  abbrev pub fgt : F → F → Bool
  fgt a b = elim (fl.partial_cmp a b) [
    | none ↦ false
    | some o ↦ elim o [ Ordering.gt ↦ true | _ ↦ false ]
  ]

  -- `a.partial_cmp(&b).unwrap_or(Ordering::Equal)`
  abbrev pub cmp_or_equal : F → F → Ordering
  cmp_or_equal a b = Option.get_or (fl.partial_cmp a b) Ordering.eq

-- What IEEE 754 says of the comparison: only NaN is incomparable, the two directions agree, and
-- the order is transitive.
pub record IsIeee {F : Type 0} (fl : Float F) : Type 0 where
  pub comparable : (a b : F) → fl.is_nan a ≡ false → fl.is_nan b ≡ false → fl.partial_cmp a b ≢ none
  pub flip : (a b : F) → fl.partial_cmp b a ≡ Option.map swap (fl.partial_cmp a b)
  pub fle_trans :
      (a b c : F) → fle ⦃fl = fl⦄ a b ≡ true → fle ⦃fl = fl⦄ b c ≡ true → fle ⦃fl = fl⦄ a c ≡ true
