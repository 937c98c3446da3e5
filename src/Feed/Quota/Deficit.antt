-- ===== src/Feed/Quota/Deficit.antt =====
-- The deficits of crates/feed/src/quota_sampler.rs, and the candidate that is picked by them.
use mathlib.Core.Path.{subst}
use fediway.Prelude.{
  ℕ, ◌≡◌, refl, inl, inr, Bool, true, false, ◌&&◌, none, some, String, List, [], ◌∷◌, arith, filter,
  any, All, Among, All-filter, All-of_filter, All-map, str_eq_iff, Bool-cases, get_elem?,
}
use fediway.Prelude.Float.{Float, IsIeee, fle, fgt}
use fediway.Prelude.Maxima.{enumerate, enumerate-All, max_by-All}
use fediway.Feed.Candidate.{Candidate}
use fediway.Feed.Sampler.{best_index, by_score}
use fediway.Feed.Sampler.Best.{
  best_index-entry, best-upper, at_most, is_number, All-enumerate_from, All-of_enumerate_from,
}
use fediway.Feed.Quota.{
  GroupQuota, QuotaSampler, in_group, deficit, available, quota_step, best_group_loop, best_group,
  pick_in, quota_sampler,
}

and-true_right : (a b : Bool) → (a && b) ≡ true → b ≡ true
and-true_right a b h = ground arith

and-false_right : (a b : Bool) → a ≡ true → (a && b) ≡ false → b ≡ false
and-false_right a b h k = ground arith

skip_second {ℓ} : {A : Type ℓ} {a x y : A} (xs : List A) → Among a (x ∷ xs) → Among a (x ∷ y ∷ xs)
skip_second xs (inl e) = inl e
skip_second xs (inr m) = inr (inr m)

module _ {F : Type 0} ⦃fl : Float F⦄ (laws : IsIeee fl) where
  fle_of_fgt : (a b : F) → fgt a b ≡ true → fle b a ≡ true
  fle_of_fgt a b h = ground (arith, laws.flip a b)

  fle_of_not_fgt :
      (a b : F) → fl.is_nan a ≡ false → fl.is_nan b ≡ false → fgt a b ≡ false → fle a b ≡ true
  fle_of_not_fgt a b n m h = ground (arith, laws.comparable a b)

  fle_refl : (a : F) → fl.is_nan a ≡ false → fle a a ≡ true
  fle_refl a n = ground (arith, laws.comparable a a, laws.flip a a)

module _ {ℓ} {Item : Type ℓ} {F : Type 0} ⦃fl : Float F⦄ where
  pick-pick_in :
      (s : QuotaSampler F) (remaining selected : List (Candidate Item F)) (i : ℕ)
      → fle s.total_weight fl.zero ≡ false
      → (quota_sampler s).pick remaining selected ≡ some i
      → pick_in s remaining selected (best_group s remaining selected) ≡ some i
  unfolding quota_sampler
  pick-pick_in s [] selected i h e = cc
  pick-pick_in s (c ∷ cs) selected i h e = rw h at e

module _ {ℓ} {Item : Type ℓ} {F : Type 0} ⦃fl : Float F⦄ (s : QuotaSampler F)
    (remaining selected : List (Candidate Item F)) where
  -- The deficit of the quota is a finite number.
  abbrev pub IsFinite : GroupQuota F → Type 0
  IsFinite quota =
      (fl.is_nan (deficit s remaining selected quota) ≡ false)
      × (fgt (deficit s remaining selected quota) fl.neg_infinity ≡ true)

  -- No available quota has a deficit above `d`.
  abbrev pub IsLargest : F → List (GroupQuota F) → Type 0
  IsLargest d = All (λ quota.
      available s remaining selected quota ≡ true
      → fle (deficit s remaining selected quota) d ≡ true)

module _ {ℓ} {Item : Type ℓ} {F : Type 0} ⦃fl : Float F⦄ (laws : IsIeee fl) (s : QuotaSampler F)
    (remaining selected : List (Candidate Item F)) where
  -- From a best deficit in hand the loop ends in the largest of it and the available ones.
  loop-IsLargest :
      (chosen : GroupQuota F) (quotas : List (GroupQuota F))
      → IsFinite s remaining selected chosen
      → All (IsFinite s remaining selected) quotas
      → (winner : GroupQuota F) × Among winner (chosen ∷ quotas)
        × (best_group_loop s remaining selected
              (some chosen.group, deficit s remaining selected chosen)
              quotas
            ≡ (some winner.group, deficit s remaining selected winner))
        × (fle (deficit s remaining selected chosen) (deficit s remaining selected winner) ≡ true)
        × IsLargest s remaining selected (deficit s remaining selected winner) quotas
  unfolding best_group_loop quota_step
  loop-IsLargest chosen [] h k = (chosen, inl refl, refl, fle_refl laws _ h.0, tt)
  loop-IsLargest chosen (quota ∷ quotas) h k =
      elim (Bool-cases (
        available s remaining selected quota
        && fgt (deficit s remaining selected quota) (deficit s remaining selected chosen))) [
          | inl e ↦
              let (winner, among, run, up, rest) = loop-IsLargest quota quotas k.0 k.1 in
              let less = fle_of_fgt laws _ _ (and-true_right _ _ e) in
              (winner, inr among, rw e run, laws.fle_trans _ _ _ less up, ((λ a. up), rest))
          | inr e ↦
              let (winner, among, run, up, rest) = loop-IsLargest chosen quotas h k.1 in
              (
                winner,
                skip_second quotas among,
                rw e run,
                up,
                (
                  (λ a.
                      laws.fle_trans _ _ _
                        (fle_of_not_fgt laws _ _ k.0.0 h.0 (and-false_right _ _ a e)) up),
                  rest,
                ),
              )
        ]

  -- From the initial state the loop ends in the largest deficit of the available quotas.
  loop_from_none :
      (quotas : List (GroupQuota F))
      → All (IsFinite s remaining selected) quotas
      → any (available s remaining selected) quotas ≡ true
      → (winner : GroupQuota F) × Among winner quotas
        × (best_group_loop s remaining selected (none, fl.neg_infinity) quotas
            ≡ (some winner.group, deficit s remaining selected winner))
        × IsLargest s remaining selected (deficit s remaining selected winner) quotas
  unfolding best_group_loop quota_step
  loop_from_none [] k a = cc
  loop_from_none (quota ∷ quotas) k a = elim (Bool-cases (available s remaining selected quota)) [
    | inl e ↦
        let (winner, among, run, up, rest) = loop-IsLargest quota quotas k.0 k.1 in
        (winner, among, rw (e, k.0.1) run, ((λ _. up), rest))
    | inr e ↦
        let (winner, among, run, rest) = loop_from_none quotas k.1 (rw e at a) in
        (winner, inr among, rw e run, ((λ f. cc), rest))
  ]

  -- The best of one group's candidates is of the group and scores at least as high as its others.
  best_in_group :
      (group : String) (i : ℕ) (x : Candidate Item F)
      → All (λ c. is_number c ≡ true) remaining
      → best_index (filter (λ e. in_group group e.1) (enumerate remaining)) ≡ some i
      → get_elem? remaining i ≡ some x
      → (x.group ≡ group) × All (λ c. in_group group c ≡ true → at_most x c ≡ true) remaining
  best_in_group group i x numbers picked at =
      let p : ℕ × Candidate Item F → Bool = λ e. in_group group e.1 in
      let es : List (ℕ × Candidate Item F) = filter p (enumerate remaining) in
      let (m, found) = best_index-entry es i picked in
      let (stands, belongs) =
        max_by-All (λ e. (get_elem? remaining e.0 ≡ some e.1) × (p e ≡ true)) by_score es
          (All-filter (λ e. get_elem? remaining e.0 ≡ some e.1) p (enumerate remaining)
            (enumerate-All remaining))
          found in
      let same : m ≡ x = cc in
      let numbered =
        All-map (λ e both. both.0) es
          (All-filter (λ e. is_number e.1 ≡ true) p (enumerate remaining)
            (All-enumerate_from (λ c. is_number c ≡ true) 0 remaining numbers)) in
      let upper =
        All-of_filter (λ e. at_most m e.1 ≡ true) p _ (best-upper laws es numbered found) in
      subst
        (λ y. (y.group ≡ group) × All (λ c. in_group group c ≡ true → at_most y c ≡ true) remaining)
        same
        (
          (str_eq_iff m.group group).0 belongs,
          All-of_enumerate_from (λ c. in_group group c ≡ true → at_most m c ≡ true) 0 remaining
              upper,
        )

  -- Where the weights sum up to more than zero, the scores are numbers, the deficits are finite and
  -- some quota has candidates left: the candidate picked belongs to a quota of the largest deficit
  -- among those that have, and no candidate of its group scores higher.
  pub pick-IsLargest-deficit :
      (i : ℕ) (x : Candidate Item F)
      → fle s.total_weight fl.zero ≡ false
      → All (λ c. is_number c ≡ true) remaining
      → All (IsFinite s remaining selected) s.quotas
      → any (available s remaining selected) s.quotas ≡ true
      → (quota_sampler s).pick remaining selected ≡ some i
      → get_elem? remaining i ≡ some x
      → (winner : GroupQuota F) × Among winner s.quotas
        × (x.group ≡ winner.group)
        × IsLargest s remaining selected (deficit s remaining selected winner) s.quotas
        × All (λ c. in_group winner.group c ≡ true → at_most x c ≡ true) remaining
  unfolding best_group pick_in
  pick-IsLargest-deficit i x positive numbers finite some_available picked at =
      let (winner, among, run, largest) = loop_from_none s.quotas finite some_available in
      let (belongs, upper) =
        best_in_group winner.group i x numbers
          (rw (run, pick_in) at (pick-pick_in s remaining selected i positive picked)) at in
      (winner, among, belongs, largest, upper)
