-- ===== src/Prelude/Sort.antt =====
-- The stable `sort_by` of the standard library: elements that the test does not separate keep their
-- order.
use mathlib.Core.Path.{◌≡◌, refl}
use mathlib.Core.Logic.{inl, inr}
use mathlib.Core.Bool.{Bool, true, false}
use mathlib.Core.List.{List, [], ◌∷◌, Perm}
use mathlib.Core.List.Perm
use native.Mathlib.Omega.{arith}
use fediway.Prelude.Tests.{if◌then◌else◌, Bool-cases}
use fediway.Prelude.Lists.{All, All-map, All-filter, filter}

module _ {ℓ} {A : Type ℓ} where
  sort_insert : (A → A → Bool) → A → List A → List A
  sort_insert le x [] = x ∷ []
  sort_insert le x (y ∷ ys) = if le x y then x ∷ y ∷ ys else y ∷ sort_insert le x ys

  unfoldable pub sort_by : (A → A → Bool) → List A → List A
  unfolding sort_insert
  sort_by le [] = []
  sort_by le (x ∷ xs) = sort_insert le x (sort_by le xs)

  abbrev pub IsSorted : (A → A → Bool) → List A → Type 0
  IsSorted le [] = Unit
  IsSorted le (x ∷ xs) = All (λ y. le x y ≡ true) xs × IsSorted le xs

  sort_insert-perm : (le : A → A → Bool) (x : A) (ys : List A) → Perm (sort_insert le x ys) (x ∷ ys)
  unfolding sort_insert
  sort_insert-perm le x [] = Perm.refl _
  sort_insert-perm le x (y ∷ ys) = elim (Bool-cases (le x y)) [
    | inl h ↦ rw h (Perm.refl _)
    | inr h ↦ rw h (Perm.trans (Perm.cons y (sort_insert-perm le x ys)) (Perm.swap x y ys))
  ]

  pub sort_by-perm : (le : A → A → Bool) (xs : List A) → Perm (sort_by le xs) xs
  unfolding sort_by
  sort_by-perm le [] = Perm.refl _
  sort_by-perm le (x ∷ xs) =
      Perm.trans (sort_insert-perm le x (sort_by le xs)) (Perm.cons x (sort_by-perm le xs))

  sort_insert-All {κ} :
      (P : A → Type κ) (le : A → A → Bool) (x : A) (ys : List A)
      → P x
      → All P ys
      → All P (sort_insert le x ys)
  unfolding sort_insert
  sort_insert-All P le x [] h k = (h, tt)
  sort_insert-All P le x (y ∷ ys) h k = elim (Bool-cases (le x y)) [
    | inl e ↦ rw e (h, k)
    | inr e ↦ rw e (k.0, sort_insert-All P le x ys h k.1)
  ]

  pub sort_by-All {κ} :
      (P : A → Type κ) (le : A → A → Bool) (xs : List A) → All P xs → All P (sort_by le xs)
  unfolding sort_by
  sort_by-All P le [] h = tt
  sort_by-All P le (x ∷ xs) h = sort_insert-All P le x (sort_by le xs) h.0 (sort_by-All P le xs h.1)

  sort_insert-All_inv {κ} :
      (P : A → Type κ) (le : A → A → Bool) (x : A) (ys : List A)
      → All P (sort_insert le x ys)
      → P x × All P ys
  unfolding sort_insert
  sort_insert-All_inv P le x [] h = h
  sort_insert-All_inv P le x (y ∷ ys) h = elim (Bool-cases (le x y)) [
    | inl e ↦ rw e at h
    | inr e ↦
        let (first, rest) = rw e at h in
        let (here, more) = sort_insert-All_inv P le x ys rest in (here, (first, more))
  ]

  -- What holds of the sorted elements holds of all elements.
  pub sort_by-All_inv {κ} :
      (P : A → Type κ) (le : A → A → Bool) (xs : List A) → All P (sort_by le xs) → All P xs
  unfolding sort_by
  sort_by-All_inv P le [] h = tt
  sort_by-All_inv P le (x ∷ xs) h =
      let (here, rest) = sort_insert-All_inv P le x (sort_by le xs) h in
      (here, sort_by-All_inv P le xs rest)

  module _ (le : A → A → Bool) (total : (a b : A) → le a b ≡ false → le b a ≡ true)
      (trans : (a b c : A) → le a b ≡ true → le b c ≡ true → le a c ≡ true) where
    sort_insert-IsSorted :
        (x : A) (ys : List A) → IsSorted le ys → IsSorted le (sort_insert le x ys)
    unfolding sort_insert
    sort_insert-IsSorted x [] s = (tt, tt)
    sort_insert-IsSorted x (y ∷ ys) s = elim (Bool-cases (le x y)) [
      | inl e ↦ rw e ((e, All-map (λ b h. trans x y b e h) ys s.0), s)
      | inr e ↦ rw e (sort_insert-All _ le x ys (total x y e) s.0, sort_insert-IsSorted x ys s.1)
    ]

    pub sort_by-IsSorted : (xs : List A) → IsSorted le (sort_by le xs)
    unfolding sort_by
    sort_by-IsSorted [] = tt
    sort_by-IsSorted (x ∷ xs) = sort_insert-IsSorted x (sort_by le xs) (sort_by-IsSorted xs)

    sort_insert-below :
        (x : A) (zs : List A) → All (λ z. le x z ≡ true) zs → sort_insert le x zs ≡ x ∷ zs
    unfolding sort_insert
    sort_insert-below x [] h = refl
    sort_insert-below x (z ∷ zs) h = rw h.0 refl

    filter-sort_insert_sorted :
        (p : A → Bool) (x : A) (ys : List A)
        → IsSorted le ys
        → filter p (sort_insert le x ys)
          ≡ (if p x then sort_insert le x (filter p ys) else filter p ys)
    unfolding sort_insert
    filter-sort_insert_sorted p x [] s = refl
    filter-sort_insert_sorted p x (y ∷ ys) s = elim (Bool-cases (le x y)) [
      | inl e ↦
          let under : All (λ z. le x z ≡ true) (filter p (y ∷ ys)) =
            All-map (λ z both. both.0) _
              (All-filter _ p (y ∷ ys) (e, All-map (λ z h. trans x y z e h) ys s.0)) in
          rw (e, sort_insert-below x (filter p (y ∷ ys)) under) refl
      | inr e ↦ ground (arith, filter-sort_insert_sorted p x ys s.1)
    ]

    -- Sorting commutes with a filter.
    pub filter-sort_by_comm :
        (p : A → Bool) (xs : List A) → filter p (sort_by le xs) ≡ sort_by le (filter p xs)
    unfolding sort_by
    filter-sort_by_comm p [] = refl
    filter-sort_by_comm p (x ∷ xs) = ground (
      arith,
      filter-sort_insert_sorted p x (sort_by le xs) (sort_by-IsSorted xs),
      filter-sort_by_comm p xs,
    )

  All-both {κ} :
      (N : A → Type κ) (q r : A → Bool)
      → ((a : A) → N a → q a ≡ true → r a ≡ true)
      → (xs : List A) → All N xs
      → All (λ a. q a ≡ true) xs
      → All (λ a. r a ≡ true) xs
  All-both N q r f [] n h = tt
  All-both N q r f (x ∷ xs) n h = (f x n.0 h.0, All-both N q r f xs n.1 h.1)

  -- A test that orders only the elements where `N` holds sorts a list of those.
  module _ {κ} (N : A → Type κ) (le : A → A → Bool)
      (total : (a b : A) → N a → N b → le a b ≡ false → le b a ≡ true)
      (trans : (a b c : A) → N a → N b → N c → le a b ≡ true → le b c ≡ true → le a c ≡ true) where
    sort_insert-IsSorted_on :
        (x : A) (ys : List A) → N x → All N ys → IsSorted le ys → IsSorted le (sort_insert le x ys)
    unfolding sort_insert
    sort_insert-IsSorted_on x [] n ns s = (tt, tt)
    sort_insert-IsSorted_on x (y ∷ ys) n ns s = elim (Bool-cases (le x y)) [
      | inl e ↦
          rw e ((e, All-both N (le y) (le x) (λ b m h. trans x y b n ns.0 m e h) ys ns.1 s.0), s)
      | inr e ↦ rw e (
        sort_insert-All _ le x ys (total x y n ns.0 e) s.0,
        sort_insert-IsSorted_on x ys n ns.1 s.1,
      )
    ]

    pub sort_by-IsSorted_on : (xs : List A) → All N xs → IsSorted le (sort_by le xs)
    unfolding sort_by
    sort_by-IsSorted_on [] n = tt
    sort_by-IsSorted_on (x ∷ xs) n =
        sort_insert-IsSorted_on x (sort_by le xs) n.0 (sort_by-All N le xs n.1)
          (sort_by-IsSorted_on xs n.1)

  module _ (le : A → A → Bool) (p : A → Bool)
      (alike : (a b : A) → p a ≡ true → p b ≡ true → le a b ≡ true) where
    filter-sort_insert : (x : A) (ys : List A) → filter p (sort_insert le x ys) ≡ filter p (x ∷ ys)
    unfolding sort_insert
    filter-sort_insert x [] = refl
    filter-sort_insert x (y ∷ ys) = ground (arith, alike x y, filter-sort_insert x ys)

    -- Stability: a class of elements that the test does not separate keeps its order.
    pub filter-sort_by : (xs : List A) → filter p (sort_by le xs) ≡ filter p xs
    unfolding sort_by
    filter-sort_by [] = refl
    filter-sort_by (x ∷ xs) =
        ground (arith, filter-sort_insert x (sort_by le xs), filter-sort_by xs)

  -- A list that is in order already is left as it is.
  pub sort_by_of_IsSorted : (le : A → A → Bool) (xs : List A) → IsSorted le xs → sort_by le xs ≡ xs
  unfolding sort_by
  sort_by_of_IsSorted le [] s = refl
  sort_by_of_IsSorted le (x ∷ []) s = refl
  sort_by_of_IsSorted le (x ∷ y ∷ ys) s = rw (sort_by_of_IsSorted le (y ∷ ys) s.1) (rw s.0.0 refl)
