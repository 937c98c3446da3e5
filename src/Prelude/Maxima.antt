-- ===== src/Prelude/Maxima.antt =====
-- `enumerate` and `max_by` of the standard library.
use Prim.Native.Nat.{ℕ, suc, ◌+◌, Ordering}
use mathlib.Core.Path.{◌≡◌, refl, ap, subst}
use mathlib.Core.Logic.{◌≢◌}
use mathlib.Core.Option.{Option, none, some}
use mathlib.Core.List.{List, [], ◌∷◌}
use native.Mathlib.Omega.{arith}
use fediway.Prelude.Lists.{All, get_elem?}

module _ {ℓ} {A : Type ℓ} where
  unfoldable pub enumerate_from : ℕ → List A → List (ℕ × A)
  enumerate_from i [] = []
  enumerate_from i (x ∷ xs) = (i, x) ∷ enumerate_from (suc i) xs

  abbrev pub enumerate : List A → List (ℕ × A)
  enumerate xs = enumerate_from 0 xs

  pub enumerate_from-All :
      (i : ℕ) (xs ys : List A)
      → ((j : ℕ) → get_elem? ys (i + j) ≡ get_elem? xs j)
      → All (λ e. get_elem? ys e.0 ≡ some e.1) (enumerate_from i xs)
  unfolding enumerate_from
  enumerate_from-All i [] ys h = tt
  enumerate_from-All i (x ∷ xs) ys h = (
    subst_index (omega arith) (h 0),
    enumerate_from-All (suc i) xs ys (λ j. subst_index (omega arith) (h (suc j))),
  )
    where
      subst_index : {a b : ℕ} {o : Option A} → a ≡ b → get_elem? ys a ≡ o → get_elem? ys b ≡ o
      subst_index e g = rw (← e) g

  -- Each entry of `enumerate` holds an index and the element that stands there.
  pub enumerate-All : (xs : List A) → All (λ e. get_elem? xs e.0 ≡ some e.1) (enumerate xs)
  enumerate-All xs = enumerate_from-All 0 xs xs (λ j. ap (get_elem? xs) (omega arith))

  -- One step of `max_by`: of two equal elements the later one is kept.
  later_max : (A → A → Ordering) → A → A → A
  later_max cmp best x = elim (cmp best x) [ Ordering.gt ↦ best | _ ↦ x ]

  unfoldable pub max_by_from : (A → A → Ordering) → A → List A → A
  unfolding later_max
  max_by_from cmp best [] = best
  max_by_from cmp best (x ∷ xs) = max_by_from cmp (later_max cmp best x) xs

  unfoldable pub max_by : (A → A → Ordering) → List A → Option A
  unfolding max_by_from
  max_by cmp [] = none
  max_by cmp (x ∷ xs) = some (max_by_from cmp x xs)

  later_max-All {κ} :
      (P : A → Type κ) (cmp : A → A → Ordering) (best x : A)
      → P best
      → P x
      → P (later_max cmp best x)
  unfolding later_max
  later_max-All P cmp best x h k = go (cmp best x)
    where
      go : (o : Ordering) → P (elim o [ Ordering.gt ↦ best | _ ↦ x ])
      go Ordering.gt = h
      go Ordering.lt = k
      go Ordering.eq = k

  max_by_from-All {κ} :
      (P : A → Type κ) (cmp : A → A → Ordering) (best : A) (xs : List A)
      → P best
      → All P xs
      → P (max_by_from cmp best xs)
  unfolding max_by_from
  max_by_from-All P cmp best [] h k = h
  max_by_from-All P cmp best (x ∷ xs) h k =
      max_by_from-All P cmp (later_max cmp best x) xs (later_max-All P cmp best x h k.0) k.1

  -- What holds of every element holds of the maximum.
  pub max_by-All {κ} :
      (P : A → Type κ) (cmp : A → A → Ordering) (xs : List A) {m : A}
      → All P xs
      → max_by cmp xs ≡ some m
      → P m
  unfolding max_by
  max_by-All P cmp [] h e = cc
  max_by-All P cmp (x ∷ xs) {m} h e =
      let f : max_by_from cmp x xs ≡ m = cc in rw f at (max_by_from-All P cmp x xs h.0 h.1)

  pub max_by-eq-none : (cmp : A → A → Ordering) (xs : List A) → max_by cmp xs ≡ none → xs ≡ []
  unfolding max_by
  max_by-eq-none cmp [] e = refl
  max_by-eq-none cmp (x ∷ xs) e = cc

  -- Over elements that satisfy `N`, where `R` is the order that `cmp` computes, the maximum lies
  -- above all.
  module _ {κ μ} (N : A → Type κ) (R : A → A → Type μ) (cmp : A → A → Ordering)
      (below : (a b : A) → N a → N b → cmp a b ≢ Ordering.gt → R a b)
      (above : (a b : A) → N a → N b → cmp a b ≡ Ordering.gt → R b a)
      (reflexive : (a : A) → N a → R a a) (trans : (a b c : A) → R a b → R b c → R a c) where
    abbrev IsUpper : A → A → List A → Type (κ ⊔ μ)
    IsUpper m best xs = N m × R best m × All (λ a. R a m) xs

    later_max-IsUpper : (best x : A) → N best → N x → IsUpper (later_max cmp best x) best (x ∷ [])
    unfolding later_max
    later_max-IsUpper best x h k = go (cmp best x) refl
      where
        go :
            (o : Ordering)
            → cmp best x ≡ o
            → IsUpper (elim o [ Ordering.gt ↦ best | _ ↦ x ]) best (x ∷ [])
        go Ordering.gt e = (h, reflexive best h, (above best x h k e, tt))
        go Ordering.lt e = (k, below best x h k (λ g. cc), (reflexive x k, tt))
        go Ordering.eq e = (k, below best x h k (λ g. cc), (reflexive x k, tt))

    max_by_from-IsUpper :
        (best : A) (xs : List A) → N best → All N xs → IsUpper (max_by_from cmp best xs) best xs
    unfolding max_by_from
    max_by_from-IsUpper best [] h k = (h, reflexive best h, tt)
    max_by_from-IsUpper best (x ∷ xs) h k =
        let b : A = later_max cmp best x in
        let first = later_max-IsUpper best x h k.0 in
        let rest = max_by_from-IsUpper b xs first.0 k.1 in
        (rest.0, trans best b _ first.1 rest.1, (trans x b _ first.2.0 rest.1, rest.2))

    pub max_by-upper :
        (xs : List A) {m : A} → All N xs → max_by cmp xs ≡ some m → All (λ a. R a m) xs
    unfolding max_by
    max_by-upper [] k e = tt
    max_by-upper (x ∷ xs) {m} k e =
        let upper = max_by_from-IsUpper x xs k.0 k.1 in
        let f : max_by_from cmp x xs ≡ m = cc in
        subst (λ b. All (λ a. R a b) (x ∷ xs)) f (upper.1, upper.2)
