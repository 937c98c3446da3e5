-- ===== src/Feed/Quota.antt =====
-- crates/feed/src/quota_sampler.rs
pub mod Lawful
pub mod Deficit
use fediway.Prelude.{
  ℕ, suc, ◌+◌, ◌≡◌, Bool, true, false, not, ◌&&◌, Option, none, some, String, List, [], ◌∷◌, foldl,
  length, filter, any, str_eq, if◌then◌else◌,
}
use fediway.Prelude.Float.{Float, fle, fgt}
use fediway.Prelude.Maxima.{enumerate}
use fediway.Feed.Candidate.{Candidate}
use fediway.Feed.Sampler.{Sampler, best_index}

pub record GroupQuota (F : Type 0) : Type 0 where
  pub group : String
  pub weight : F

pub record QuotaSampler (F : Type 0) : Type 0 where
  pub quotas : List (GroupQuota F)
  pub total_weight : F

module _ {F : Type 0} ⦃fl : Float F⦄ where
  -- `QuotaSampler::new`
  unfoldable pub new : List (GroupQuota F) → QuotaSampler F
  new quotas = record {
    quotas = quotas;
    total_weight = foldl (λ total q. fl.add total q.weight) fl.zero quotas;
  }

module _ {ℓ} {Item : Type ℓ} {F : Type 0} ⦃fl : Float F⦄ where
  abbrev pub in_group : String → Candidate Item F → Bool
  in_group group c = str_eq c.group group

  pub highest_scored : List (Candidate Item F) → Option ℕ
  highest_scored candidates = best_index (enumerate candidates)

  module _ (s : QuotaSampler F) (remaining selected : List (Candidate Item F)) where
    -- `target - actual` of one quota, once the next candidate is selected
    pub deficit : GroupQuota F → F
    deficit quota = fl.sub (fl.div quota.weight s.total_weight) (
        fl.div (fl.of_nat (length (filter (in_group quota.group) selected)))
          (fl.of_nat (length selected + 1)))

    -- `remaining.iter().any(|c| c.group == quota.group)`
    abbrev pub available : GroupQuota F → Bool
    available quota = any (in_group quota.group) remaining

    -- The body of the loop over the quotas, on `(best_group, best_deficit)`.
    quota_step : Option String × F → GroupQuota F → Option String × F
    quota_step best quota =
        if available quota && fgt (deficit quota) best.1
        then (some quota.group, deficit quota)
        else best

    best_group_loop : Option String × F → List (GroupQuota F) → Option String × F
    unfolding quota_step
    best_group_loop best [] = best
    best_group_loop best (quota ∷ quotas) = best_group_loop (quota_step best quota) quotas

    best_group : Option String
    unfolding best_group_loop
    best_group = (best_group_loop (none, fl.neg_infinity) s.quotas).0

    -- The last `match` of `pick`.
    pick_in : Option String → Option ℕ
    unfolding highest_scored
    pick_in (some group) = best_index (filter (λ e. in_group group e.1) (enumerate remaining))
    pick_in none = highest_scored remaining

  -- `pick` of `impl Sampler for QuotaSampler`
  pub pick : QuotaSampler F → List (Candidate Item F) → List (Candidate Item F) → Option ℕ
  unfolding highest_scored
  pick s [] selected = none
  pick s (c ∷ cs) selected =
      if fle s.total_weight fl.zero
      then highest_scored (c ∷ cs)
      else pick_in s (c ∷ cs) selected (best_group s (c ∷ cs) selected)

  unfoldable pub quota_sampler : QuotaSampler F → Sampler Item F
  unfolding pick pick_in best_group deficit
  quota_sampler s = record { pick = pick s }
