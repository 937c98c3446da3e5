-- ===== src/Server/Timelines.antt =====
-- apps/server/src/feeds/link_timeline.rs, tag_timeline.rs and timeline_feed.rs. The rows of the policy,
-- the bound providers and the two sources of the database are `Inputs`, where `none` is a query that
-- failed and was logged; metrics are left out.
pub mod Allowed
use mathlib.Core.Option
use fediway.Prelude.{
  ℕ, min, if◌then◌else◌, List, [], ◌∷◌, Option, none, some, ◌>>=◌, String, ◌<>◌, str_eq, map,
}
use fediway.Prelude.Int.{ℤ, pos}
use fediway.Prelude.Float.{Float}
use fediway.Common.Types.{Post}
use fediway.Feed.Candidate.{Candidate}
use fediway.Feed.Filter
use fediway.Feed.Filter.{Dedup, dedup_filter}
use fediway.Feed.Scorer.{Diversity, diversity}
use fediway.Feed.Quota
use fediway.Feed.Quota.{QuotaSampler, quota_sampler}
use fediway.Feed.Pipeline.{Source, Pipeline, execute}
use fediway.Feed.Pipeline.Builder
use fediway.State.Policy.{UserPolicy, no_policy}
use fediway.State.Detail.Fetch.{Outcome}
use fediway.Sources.FeedItem.{FeedItem, from_post}
use fediway.Sources.PolicyFilter
use fediway.Sources.PolicyFilter.{PolicyFilter, policy_filter}
use fediway.Sources.CommonFeed.Types.{QueryFilters, QueryResponse}
use fediway.Sources.CommonFeed.Fetch.{Answer, Provider, Request}
use fediway.Sources.CommonFeed.Collect.{new_source, posts_source, with_filters}
use fediway.Server.Home.{author_handle, identity, percent}
use fediway.Server.Home.Serve.{TimelineParams, rendered}
use fediway.Server.Keyset
use fediway.Server.Keyset.{paginate}

abbrev pub pool_size : ℕ
pool_size = 100

abbrev local_per_source_limit : ℕ
local_per_source_limit = 50

abbrev external_per_source_limit : ℕ
external_per_source_limit = 100

-- The account of the request, with its policy if that could be loaded.
pub record Viewer : Type 0 where
  pub id : ℤ
  pub policy : Option UserPolicy

-- An anonymous viewer, and one whose policy was not loaded, hides nobody.
unfoldable pub policy_of : Option Viewer → UserPolicy
policy_of none = no_policy
policy_of (some viewer) = Option.get_or viewer.policy no_policy

-- What the two timelines load: the viewer, and the providers that are bound to the route.
pub record Inputs (F : Type 0) : Type 0 where
  pub viewer : Option Viewer
  pub bound : Option (List (Provider × String))
  pub send : Request → Answer (QueryResponse F)

pub record Timeline (F : Type 0) : Type 0 where
  pub pipeline : Pipeline Post (Unit {0}) F
  pub path : String
  pub viewer_id : Option ℤ

abbrev native_first : {F : Type 0} → Candidate Post F → ℤ
native_first c =
    if str_eq c.group "native" then pos 0 else if str_eq c.group "federated" then pos 1 else pos 2

abbrev viewer_id_of : Option Viewer → Option ℤ
viewer_id_of = Option.map (λ v. v.id)

abbrev pub timeline_policy : Option Viewer → PolicyFilter
timeline_policy viewer = PolicyFilter.without_mutes (PolicyFilter.new (policy_of viewer))

module _ {F : Type 0} ⦃fl : Float F⦄ where
  -- The bound providers as sources of posts.
  unfoldable pub external_sources : Inputs F → QueryFilters → List (Source Post F)
  unfolding posts_source
  external_sources i filters =
      map (λ b. posts_source i.send (with_filters (new_source b.0 b.1) filters))
        (Option.get_or i.bound [])

  abbrev pub timeline_diversity : Diversity Post F
  timeline_diversity = record { penalty = percent 10; key_fn = author_handle }

  -- `LinkTimelineFeed::new`
  unfoldable pub link_timeline : Inputs F → QueryFilters → String → Timeline F
  unfolding external_sources policy_of Builder.new Builder.name Builder.sources Builder.filter
      Builder.score Builder.build policy_filter PolicyFilter.new PolicyFilter.without_mutes
      diversity
  link_timeline i filters url =
      let sources = external_sources i (record filters { link = some url }) in
      record {
        pipeline = Builder.build (
            Builder.score (diversity timeline_diversity) (
              Builder.filter (policy_filter (timeline_policy i.viewer))
                (Builder.sources sources pool_size (Builder.name "timelines/link" Builder.new))));
        path = "/api/v1/timelines/link";
        viewer_id = viewer_id_of i.viewer;
      }

  unfoldable pub tag_dedup : Dedup Post F
  unfolding Filter.new Filter.prefer
  tag_dedup = Filter.prefer native_first (Filter.new (λ c. identity c.item))

  unfoldable pub tag_sampler : QuotaSampler F
  unfolding Quota.new
  tag_sampler = Quota.new (
      record { group = "native"; weight = percent 50 }
      ∷ record { group = "federated"; weight = percent 20 }
      ∷ record { group = "external"; weight = percent 30 }
      ∷ [])

  -- `TagTimelineFeed::new`, with the native and the federated source of the hashtag.
  unfoldable pub tag_timeline :
      Inputs F → Source Post F → Source Post F → QueryFilters → String → Timeline F
  unfolding external_sources policy_of tag_dedup tag_sampler Builder.new Builder.name Builder.group
      Builder.filter Builder.score Builder.sampler Builder.build policy_filter PolicyFilter.new
      PolicyFilter.without_mutes diversity dedup_filter quota_sampler
  tag_timeline i native federated filters hashtag =
      let external = external_sources i (record filters { tag = some hashtag }) in
      let grouped = Builder.group "external" external external_per_source_limit (
        Builder.group "federated" (federated ∷ []) local_per_source_limit (
          Builder.group "native" (native ∷ []) local_per_source_limit
            (Builder.name "timelines/tag" Builder.new))) in
      let deduplicated = Builder.filter (dedup_filter tag_dedup) grouped in
      let allowed = Builder.filter (policy_filter (timeline_policy i.viewer)) deduplicated in
      let scored = Builder.score (diversity timeline_diversity) allowed in
      record {
        pipeline = Builder.build (Builder.sampler (quota_sampler tag_sampler) scored);
        path = "/api/v1/timelines/tag/" <> hashtag;
        viewer_id = viewer_id_of i.viewer;
      }

module _ {F : Type 0} where
  -- `collect` of both timelines; `none` is a panic of the sampler.
  unfoldable pub collect : Timeline F → Option (List (Candidate Post F))
  unfolding execute
  collect timeline = do result ← execute timeline.pipeline pool_size tt; some result.items

  -- `TimelineFeed::serve`: the statuses of the page and the header `Link`. `to_statuses` is given the
  -- items and the viewer.
  unfoldable pub serve :
      {Status E : Type 0}
      → (id : Status → String) → (List FeedItem → Option ℤ → Outcome (List Status) E)
      → (String → Option String)
      → String
      → Timeline F
      → TimelineParams
      → Option (List Status × Option String)
  unfolding collect from_post Keyset.paginate
  serve id to_statuses header_value instance_domain timeline params = do
    candidates ← collect timeline
    let items = map (λ c. from_post c.item instance_domain) candidates
    built ← rendered (to_statuses items timeline.viewer_id)
    some (
        paginate id built (min 40 params.limit) params.max_id params.min_id params.since_id
          header_value instance_domain timeline.path)
