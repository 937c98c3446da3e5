-- ===== src/Feed/Sampler/Best.antt =====
-- The best-scored entry of some of the enumerated candidates, which both samplers pick.
use fediway.Prelude.{
  ℕ, zero, suc, ◌<◌, ◌≡◌, ◌≢◌, refl, Bool, true, false, none, some, List, [], ◌∷◌, arith, Ordering,
  length, get_elem?, All, not, >>=-eq-some, ap, ◌∙◌, Option-cases, inl, inr,
}
use fediway.Prelude.Float.{Float, IsIeee, fle, cmp_or_equal}
use fediway.Prelude.Maxima.{enumerate_from, max_by, max_by-All, max_by-eq-none, max_by-upper}
use fediway.Feed.Candidate.{Candidate}
use fediway.Feed.Sampler.{by_score, best_index}

module _ {ℓ} {A : Type ℓ} where
  pub get_elem?-lt : (xs : List A) (i : ℕ) (a : A) → get_elem? xs i ≡ some a → i < length xs
  get_elem?-lt [] i a h = cc
  get_elem?-lt (x ∷ xs) zero a h = omega arith
  get_elem?-lt (x ∷ xs) (suc i) a h = omega (arith, get_elem?-lt xs i a h)

module _ {F : Type 0} ⦃fl : Float F⦄ (laws : IsIeee fl) where
  fle_self : (a : F) → fl.is_nan a ≡ false → fle a a ≡ true
  fle_self a n = ground (arith, laws.comparable a a, laws.flip a a)

  fle_of_not_gt :
      (a b : F)
      → fl.is_nan a ≡ false
      → fl.is_nan b ≡ false
      → cmp_or_equal a b ≢ Ordering.gt
      → fle a b ≡ true
  fle_of_not_gt a b n m h = ground (arith, laws.comparable a b)

  fle_of_gt : (a b : F) → cmp_or_equal a b ≡ Ordering.gt → fle b a ≡ true
  fle_of_gt a b h = ground (arith, laws.flip a b)

module _ {ℓ} {A : Type ℓ} where
  -- Properties of the elements and of the enumerated elements.
  pub All-enumerate_from {κ} :
      (P : A → Type κ) (i : ℕ) (xs : List A) → All P xs → All (λ e. P e.1) (enumerate_from i xs)
  unfolding enumerate_from
  All-enumerate_from P i [] h = tt
  All-enumerate_from P i (x ∷ xs) h = (h.0, All-enumerate_from P (suc i) xs h.1)

  pub All-of_enumerate_from {κ} :
      (P : A → Type κ) (i : ℕ) (xs : List A) → All (λ e. P e.1) (enumerate_from i xs) → All P xs
  unfolding enumerate_from
  All-of_enumerate_from P i [] h = tt
  All-of_enumerate_from P i (x ∷ xs) h = (h.0, All-of_enumerate_from P (suc i) xs h.1)

module _ {ℓ} {Item : Type ℓ} {F : Type 0} ⦃fl : Float F⦄ where
  -- The score is a number.
  abbrev pub is_number : Candidate Item F → Bool
  is_number c = not (fl.is_nan c.score)

  -- `a` scores at most as high as `b`.
  abbrev pub at_most : Candidate Item F → Candidate Item F → Bool
  at_most b a = fle a.score b.score

  not_nan : (c : Candidate Item F) → is_number c ≡ true → fl.is_nan c.score ≡ false
  not_nan c h = ground arith

  module _ (laws : IsIeee fl) where
    -- The best of a list of entries scores at least as high as each of them.
    pub best-upper :
        (es : List (ℕ × Candidate Item F)) {m : ℕ × Candidate Item F}
        → All (λ e. is_number e.1 ≡ true) es
        → max_by by_score es ≡ some m
        → All (λ e. at_most m.1 e.1 ≡ true) es
    best-upper es numbers e =
        max_by-upper (λ e. is_number e.1 ≡ true) (λ a b. at_most b.1 a.1 ≡ true) by_score
          (λ a b n m h. fle_of_not_gt laws a.1.score b.1.score (not_nan a.1 n) (not_nan b.1 m) h)
          (λ a b n m h. fle_of_gt laws a.1.score b.1.score h)
          (λ a n. fle_self laws a.1.score (not_nan a.1 n))
          (λ a b c. laws.fle_trans a.1.score b.1.score c.1.score) es numbers e

  -- The index picked from enumerated candidates is that of an entry of the list.
  pub best_index-entry :
      (es : List (ℕ × Candidate Item F)) (i : ℕ)
      → best_index es ≡ some i
      → (c : Candidate Item F) × (max_by by_score es ≡ some (i, c))
  best_index-entry es i h =
      let (e, found, index) = >>=-eq-some (max_by by_score es) (λ e. some e.0) h in
      let same : e.0 ≡ i = cc in (e.1, found ∙ ap (λ j. some (j, e.1)) same)

  pub best_index-lt :
      (cs : List (Candidate Item F)) (es : List (ℕ × Candidate Item F)) (i : ℕ)
      → All (λ e. get_elem? cs e.0 ≡ some e.1) es
      → best_index es ≡ some i
      → i < length cs
  best_index-lt cs es i at h =
      let (c, found) = best_index-entry es i h in
      get_elem?-lt cs i c (max_by-All (λ e. get_elem? cs e.0 ≡ some e.1) by_score es at found)

  pub best_index-ne-none :
      (e : ℕ × Candidate Item F) (es : List (ℕ × Candidate Item F)) → best_index (e ∷ es) ≢ none
  best_index-ne-none e es h = elim (Option-cases (max_by by_score (e ∷ es))) [
    | inl m ↦ cc (max_by-eq-none by_score (e ∷ es) m)
    | inr (m, found) ↦ let k : best_index (e ∷ es) ≡ some m.0 = rw found refl in cc
  ]
