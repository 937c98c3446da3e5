-- ===== src/Server/Home.antt =====
-- The ranking of apps/server/src/feeds/home.rs: how `HomeFeed::new` builds its pipeline, and `collect`.
-- The sources, the rows of the policy and the vector come from the database: they are `Inputs`, where
-- `none` is a query that failed and was logged. A source answers the same within one request.
pub mod Ranked
pub mod Serve
pub mod Steps
pub mod Total
pub mod Pages
use fediway.Prelude.{
  ℕ, Bool, true, false, Option, some, none, String, List, [], ◌∷◌, if◌then◌else◌, ◌>>=◌,
}
use mathlib.Core.Option
use fediway.Prelude.Float.{Float}
use fediway.Prelude.Int.{ℤ}
use fediway.Common.Types.{Post, body, AccountId}
use fediway.Feed.Candidate.{Candidate}
use fediway.Feed.Filter
use fediway.Feed.Filter.{Dedup, dedup_filter}
use fediway.Feed.Scorer.{Diversity, diversity}
use fediway.Feed.Quota
use fediway.Feed.Quota.{GroupQuota, QuotaSampler, quota_sampler}
use fediway.Feed.Pipeline.{Source, Pipeline, PipelineBuilder, execute}
use fediway.Feed.Pipeline.Builder
use fediway.State.Policy.{UserPolicy, no_policy}
use fediway.Sources.PolicyFilter
use fediway.Sources.PolicyFilter.{policy_filter}

abbrev pub pool_size : ℕ
pool_size = 300

abbrev network_pool : ℕ
network_pool = 180

abbrev recommended_pool : ℕ
recommended_pool = 180

abbrev trending_pool_cold : ℕ
trending_pool_cold = 300

abbrev trending_pool_warm : ℕ
trending_pool_warm = 60

-- What `HomeFeed::new` loads.
pub record Inputs (F : Type 0) : Type 0 where
  pub account : AccountId
  pub has_vector : Bool
  pub policy : Option UserPolicy
  pub network : Source Post F
  pub trending : Option (List (Source Post F))
  pub recommended : Option (List (Source Post F))

pub record HomeFeed (F : Type 0) : Type 0 where
  pub pipeline : Pipeline Post (Unit {0}) F
  pub user_id : ℤ

-- The identity of a post: its URI, else its URL.
abbrev pub identity : Post → String
identity p = Option.get_or (body p).uri (body p).url

abbrev pub author_handle : Post → String
author_handle p = (body p).author.handle

abbrev pub policy_of : {F : Type 0} → Inputs F → UserPolicy
policy_of i = Option.get_or i.policy no_policy

module _ {F : Type 0} ⦃fl : Float F⦄ where
  -- The decimal literal of a number of hundredths: the quotient is rounded as the literal is.
  abbrev pub percent : ℕ → F
  percent n = fl.div (fl.of_nat n) (fl.of_nat 100)

  abbrev quotas : Bool → List (GroupQuota F)
  quotas true =
      record { group = "network"; weight = percent 60 }
      ∷ record { group = "recommended"; weight = percent 30 }
      ∷ record { group = "trending"; weight = percent 10 }
      ∷ []
  quotas false =
      record { group = "network"; weight = percent 70 }
      ∷ record { group = "trending"; weight = percent 30 }
      ∷ []

  unfoldable pub home_sampler : Bool → QuotaSampler F
  unfolding Quota.new
  home_sampler has_vector = Quota.new (quotas has_vector)

  unfoldable pub home_dedup : Dedup Post F
  unfolding Filter.new
  home_dedup = Filter.new (λ c. identity c.item)

  abbrev pub home_diversity : Diversity Post F
  home_diversity = record { penalty = percent 15; key_fn = author_handle }

  -- The groups of sources; only a user with a vector has recommendations.
  unfoldable pub home_sources : Inputs F → PipelineBuilder Post (Unit {0}) F
  unfolding Builder.new Builder.name Builder.group
  home_sources i =
      let network =
        Builder.group "network" (i.network ∷ []) network_pool
          (Builder.name "timelines/home" Builder.new) in
      let trending_pool = if i.has_vector then trending_pool_warm else trending_pool_cold in
      let trending = Builder.group "trending" (Option.get_or i.trending []) trending_pool network in
      if i.has_vector
      then Builder.group "recommended" (Option.get_or i.recommended []) recommended_pool trending
      else trending

  unfoldable pub new : Inputs F → HomeFeed F
  unfolding home_sources home_sampler home_dedup Builder.filter Builder.score Builder.sampler
      Builder.build policy_filter PolicyFilter.new diversity quota_sampler dedup_filter
  new i =
      let deduplicated = Builder.filter (dedup_filter home_dedup) (home_sources i) in
      let allowed = Builder.filter (policy_filter (PolicyFilter.new (policy_of i))) deduplicated in
      let scored = Builder.score (diversity home_diversity) allowed in
      let sampled = Builder.sampler (quota_sampler (home_sampler i.has_vector)) scored in
      record { pipeline = Builder.build sampled; user_id = i.account.id }

module _ {F : Type 0} where
  unfoldable pub collect : HomeFeed F → Option (List (Candidate Post F))
  unfolding execute
  collect home = do result ← execute home.pipeline pool_size tt; some result.items
