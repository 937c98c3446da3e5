-- ===== src/Feed/Quota/Lawful.antt =====
-- The quota sampler of crates/feed/src/quota_sampler.rs as a sampler for the selection loop.
use fediway.Prelude.{
  ℕ, suc, ◌<◌, ◌≡◌, ◌≢◌, refl, ap, inl, inr, Bool, true, Option, none, some, String, List, [], ◌∷◌,
  ◌&&◌, arith, length, filter, any, All-filter, All-map, Bool-cases, fun_ext,
}
use fediway.Prelude.Float.{Float, fle, fgt}
use fediway.Prelude.Maxima.{enumerate, enumerate_from, enumerate-All, max_by}
use fediway.Feed.Candidate.{Candidate}
use fediway.Feed.Sampler.{IsLawful, sample, top_k}
use fediway.Feed.Sampler.Best.{best_index-lt, best_index-ne-none}
use fediway.Feed.Quota.{
  GroupQuota, QuotaSampler, in_group, deficit, available, quota_step, best_group_loop, best_group,
  pick_in, pick, quota_sampler,
}

and-true_left : (a b : Bool) → (a && b) ≡ true → a ≡ true
and-true_left a b h = ground arith

module _ {ℓ} {Item : Type ℓ} {F : Type 0} ⦃fl : Float F⦄ where
  module _ (s : QuotaSampler F) (remaining selected : List (Candidate Item F)) where
    -- The group in hand, if there is one, still has candidates.
    abbrev IsAvailable : Option String → Type 0
    IsAvailable none = Unit
    IsAvailable (some group) = any (in_group group) remaining ≡ true

    quota_step-IsAvailable :
        (best : Option String × F) (quota : GroupQuota F)
        → IsAvailable best.0
        → IsAvailable (quota_step s remaining selected best quota).0
    unfolding quota_step
    quota_step-IsAvailable best quota h =
        elim (Bool-cases (
          available s remaining selected quota
          && fgt (deficit s remaining selected quota) best.1)) [
            | inl e ↦ rw e (and-true_left _ _ e)
            | inr e ↦ rw e h
          ]

    best_group_loop-IsAvailable :
        (best : Option String × F) (quotas : List (GroupQuota F))
        → IsAvailable best.0
        → IsAvailable (best_group_loop s remaining selected best quotas).0
    unfolding best_group_loop
    best_group_loop-IsAvailable best [] h = h
    best_group_loop-IsAvailable best (quota ∷ quotas) h =
        best_group_loop-IsAvailable (quota_step s remaining selected best quota) quotas
          (quota_step-IsAvailable best quota h)

    best_group-IsAvailable : IsAvailable (best_group s remaining selected)
    unfolding best_group
    best_group-IsAvailable = best_group_loop-IsAvailable (none, fl.neg_infinity) s.quotas tt

    pick_in-lt :
        (g : Option String) (i : ℕ) → pick_in s remaining selected g ≡ some i → i < length remaining
    unfolding pick_in
    pick_in-lt none i h =
        best_index-lt remaining (enumerate remaining) i (enumerate-All remaining) h
    pick_in-lt (some group) i h =
        best_index-lt remaining (filter (λ e. in_group group e.1) (enumerate remaining)) i
          (All-map (λ e both. both.0) _
            (All-filter _ (λ e. in_group group e.1) (enumerate remaining)
              (enumerate-All remaining)))
          h

  filter_of_any :
      (group : String) (i : ℕ) (cs : List (Candidate Item F))
      → any (in_group group) cs ≡ true
      → (e : ℕ × Candidate Item F) × (es : List (ℕ × Candidate Item F)) × (filter
            (λ e. in_group group e.1)
            (enumerate_from i cs)
          ≡ e ∷ es)
  unfolding enumerate_from
  filter_of_any group i [] h = cc
  filter_of_any group i (c ∷ cs) h = elim (Bool-cases (in_group group c)) [
    | inl e ↦ rw e ((i, c), filter (λ e. in_group group e.1) (enumerate_from (suc i) cs), refl)
    | inr e ↦ rw e (filter_of_any group (suc i) cs (rw e at h))
  ]

  pick_in-ne-none :
      (s : QuotaSampler F) (c : Candidate Item F) (cs selected : List (Candidate Item F))
      (g : Option String)
      → IsAvailable s (c ∷ cs) selected g
      → pick_in s (c ∷ cs) selected g ≢ none
  unfolding pick_in enumerate_from
  pick_in-ne-none s c cs selected none h = best_index-ne-none (0, c) (enumerate_from 1 cs)
  pick_in-ne-none s c cs selected (some group) h =
      let (e, es, found) = filter_of_any group 0 (c ∷ cs) h in rw found (best_index-ne-none e es)

  -- The quota sampler picks an index in range, and one whenever a candidate remains.
  pub quota_sampler-IsLawful : (s : QuotaSampler F) → IsLawful (quota_sampler {Item = Item} s)
  unfolding quota_sampler
  quota_sampler-IsLawful s = record { in_range = in_range; eager = eager }
    where
      in_range :
          (remaining selected : List (Candidate Item F)) (i : ℕ)
          → pick s remaining selected ≡ some i
          → i < length remaining
      in_range [] selected i h = cc
      in_range (c ∷ cs) selected i h = elim (Bool-cases (fle s.total_weight fl.zero)) [
        | inl e ↦ pick_in-lt s (c ∷ cs) selected none i (rw e at h)
        | inr e ↦ pick_in-lt s (c ∷ cs) selected (best_group s (c ∷ cs) selected) i (rw e at h)
      ]

      eager :
          (c : Candidate Item F) (cs selected : List (Candidate Item F))
          → pick s (c ∷ cs) selected ≢ none
      eager c cs selected = elim (Bool-cases (fle s.total_weight fl.zero)) [
        | inl e ↦ rw e (pick_in-ne-none s c cs selected none tt)
        | inr e ↦ rw e (
            pick_in-ne-none s c cs selected (best_group s (c ∷ cs) selected)
              (best_group-IsAvailable s (c ∷ cs) selected))
      ]

  pick-eq-top_k :
      (s : QuotaSampler F)
      → fle s.total_weight fl.zero ≡ true
      → (remaining selected : List (Candidate Item F))
      → (quota_sampler s).pick remaining selected ≡ top_k.pick remaining selected
  unfolding quota_sampler top_k enumerate_from max_by
  pick-eq-top_k s h [] selected = refl
  pick-eq-top_k s h (c ∷ cs) selected = rw h refl

  -- Where the weights do not sum up to more than zero the quota sampler selects as `TopK` does.
  sample-quota_sampler-eq-top_k :
      (s : QuotaSampler F) (candidates : List (Candidate Item F)) (n : ℕ)
      → fle s.total_weight fl.zero ≡ true
      → sample (quota_sampler s) candidates n ≡ sample top_k candidates n
  sample-quota_sampler-eq-top_k s candidates n h =
      ap (λ p. sample (record { pick = p }) candidates n)
        (fun_ext (λ r. fun_ext (λ l. pick-eq-top_k s h r l)))
