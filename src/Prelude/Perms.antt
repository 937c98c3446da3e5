-- ===== src/Prelude/Perms.antt =====
-- What a permutation keeps.
use Prim.Native.Nat.{ℕ, ◌+◌, ◌≤◌}
use mathlib.Core.Path.{◌≡◌, subst, refl, ap, sym, ◌∙◌}
use native.Mathlib.Omega.{arith}
use fediway.Prelude.Tests.{leb}
use mathlib.Core.Bool.{Bool, true, Bool-set}
use mathlib.Core.Logic.{∥∥₁_elim}
use mathlib.Core.List.{List, [], ◌∷◌, ◌++◌, Perm, Permᴰ}
use mathlib.Core.HLevel.{Π_prop, ×_prop, Unit-prop}
use fediway.Prelude.Lists.{All, filter, length}

module _ {ℓ} {A : Type ℓ} (p : A → Bool) where
  -- A Boolean test holds of every element.
  abbrev pub Holds : List A → Type 0
  Holds = All (λ a. p a ≡ true)

  Holds-prop : (xs : List A) → IsProp (Holds xs)
  Holds-prop [] = Unit-prop
  Holds-prop (x ∷ xs) = ×_prop (Bool-set _ _) (Holds-prop xs)

  Holds-permᴰ : {xs ys : List A} → Permᴰ xs ys → Holds xs → Holds ys
  Holds-permᴰ Permᴰ.nil h = h
  Holds-permᴰ (Permᴰ.cons e r) h = (subst (λ a. p a ≡ true) e h.0, Holds-permᴰ r h.1)
  Holds-permᴰ (Permᴰ.swap e f) h =
      (subst (λ a. p a ≡ true) f h.1.0, (subst (λ a. p a ≡ true) e h.0, h.1.1))
  Holds-permᴰ (Permᴰ.trans r s) h = Holds-permᴰ s (Holds-permᴰ r h)

  pub Holds-perm : (xs ys : List A) → Perm xs ys → Holds xs → Holds ys
  Holds-perm xs ys r = ∥∥₁_elim r (Π_prop (λ _. Holds-prop ys)) Holds-permᴰ

  pub Holds-append : (xs ys : List A) → Holds (xs ++ ys) → Holds xs × Holds ys
  Holds-append [] ys h = (tt, h)
  Holds-append (x ∷ xs) ys h = let (a, b) = Holds-append xs ys h.1 in ((h.0, a), b)

  -- How many elements pass the test.
  abbrev pub count : List A → ℕ
  count xs = length (filter p xs)

  count-permᴰ : {xs ys : List A} → Permᴰ xs ys → count xs ≡ count ys
  count-permᴰ Permᴰ.nil = refl
  count-permᴰ (Permᴰ.cons e r) = ground (arith, ap p e, count-permᴰ r)
  count-permᴰ (Permᴰ.swap e f) = ground (arith, ap p e, ap p f)
  count-permᴰ (Permᴰ.trans r s) = count-permᴰ r ∙ count-permᴰ s

  abbrev pub AtMostOne : List A → Type 0
  AtMostOne xs = leb (count xs) 1 ≡ true

  pub AtMostOne-perm : (xs ys : List A) → Perm xs ys → AtMostOne xs → AtMostOne ys
  AtMostOne-perm xs ys r =
      ∥∥₁_elim r (Π_prop (λ _. Bool-set _ _)) (λ q h. ap (λ n. leb n 1) (sym (count-permᴰ q)) ∙ h)

  pub count-append : (xs ys : List A) → count (xs ++ ys) ≡ count xs + count ys
  count-append [] ys = omega arith
  count-append (x ∷ xs) ys = ground (arith, count-append xs ys)

  pub count-filter-le : (q : A → Bool) (xs : List A) → count (filter q xs) ≤ count xs
  count-filter-le q [] = omega arith
  count-filter-le q (x ∷ xs) = ground (arith, count-filter-le q xs)
