-- ===== src/Tests/Sampling.antt =====
-- The selection loop, `TopK` and the quota sampler on concrete candidates.
use mathlib.Core.Path.{◌≡◌, refl}
use fediway.Prelude.{ℕ, min, true, some, List, [], ◌∷◌, ◌++◌, Perm, length, All, Among}
use fediway.Prelude.Maxima.{enumerate_from, max_by}
use fediway.Feed.Candidate.{Candidate}
use fediway.Feed.Sampler.{IsLawful, sample, top_k}
use fediway.Feed.Sampler.Loop.{sample-perm}
use fediway.Feed.Sampler.Best.{at_most}
use fediway.Feed.Sampler.TopK.{top_k-IsLawful, sample-top_k-IsDescending, IsDescending, IsAbove}
use fediway.Feed.Quota.{GroupQuota, QuotaSampler, quota_sampler, in_group, deficit}
use fediway.Feed.Quota.Lawful.{quota_sampler-IsLawful}
use fediway.Feed.Quota.Deficit.{pick-IsLargest-deficit, IsLargest}
use fediway.Tests.Scores.{hundredths, hundredths-IsIeee, Post, post}

abbrev network_low : Candidate Post ℕ
network_low = post "n1" "network" 100

abbrev network_high : Candidate Post ℕ
network_high = post "n2" "network" 300

abbrev trending : Candidate Post ℕ
trending = post "t1" "trending" 900

abbrev candidates : List (Candidate Post ℕ)
candidates = network_low ∷ trending ∷ network_high ∷ []

abbrev network_quota : GroupQuota ℕ
network_quota = record { group = "network"; weight = 70 }

abbrev trending_quota : GroupQuota ℕ
trending_quota = record { group = "trending"; weight = 30 }

abbrev cold_start : QuotaSampler ℕ
cold_start = record { quotas = network_quota ∷ trending_quota ∷ []; total_weight = 100 }

abbrev no_weight : QuotaSampler ℕ
no_weight = record { quotas = network_quota ∷ []; total_weight = 0 }

top_k_run : sample top_k candidates 2 ≡ some (trending ∷ network_high ∷ [])
unfolding sample top_k enumerate_from max_by
top_k_run = refl

quota_run : sample (quota_sampler cold_start) candidates 2 ≡ some (network_high ∷ trending ∷ [])
unfolding sample quota_sampler enumerate_from max_by
quota_run = refl

sample-perm_example :
    (out remaining : List (Candidate Post ℕ)) × (sample top_k candidates 2 ≡ some out)
    × Perm (out ++ remaining) candidates
    × (length out ≡ min 2 (length candidates))
sample-perm_example = sample-perm top_k top_k-IsLawful candidates 2

sample-top_k-IsDescending_example :
    (out remaining : List (Candidate Post ℕ)) × (sample top_k candidates 2 ≡ some out)
    × Perm (out ++ remaining) candidates
    × IsDescending out
    × IsAbove out remaining
sample-top_k-IsDescending_example =
    sample-top_k-IsDescending hundredths-IsIeee candidates 2 (refl, (refl, (refl, tt)))

quota_sampler-IsLawful_example : IsLawful (quota_sampler {Item = Post} cold_start)
quota_sampler-IsLawful_example = quota_sampler-IsLawful cold_start

cold_pick : (quota_sampler cold_start).pick candidates [] ≡ some 2
unfolding quota_sampler enumerate_from max_by
cold_pick = refl

pick-IsLargest-deficit_example :
    (winner : GroupQuota ℕ) × Among winner cold_start.quotas
    × (network_high.group ≡ winner.group)
    × IsLargest cold_start candidates [] (deficit cold_start candidates [] winner) cold_start.quotas
    × All (λ c. in_group winner.group c ≡ true → at_most network_high c ≡ true) candidates
unfolding quota_sampler
pick-IsLargest-deficit_example =
    pick-IsLargest-deficit hundredths-IsIeee cold_start candidates [] 2 network_high refl
      (refl, (refl, (refl, tt))) ((refl, refl), ((refl, refl), tt)) refl cold_pick refl
