-- ===== src/Server/Timelines/Allowed.antt =====
-- Whose posts the link and the tag timeline show.
use fediway.Prelude.{All, ◌++◌, ◌≡◌, ◌≤◌, refl, sym, some, String, List, [], ◌∷◌, arith, length}
use fediway.Prelude.Float.{Float}
use fediway.Prelude.Perms.{Holds}
use mathlib.Core.Path.{subst}
use fediway.Common.Types.{Post}
use fediway.Feed.Candidate.{Candidate}
use fediway.Feed.Filter.{Filter, dedup_filter}
use fediway.Feed.Scorer.{Diversity, diversity}
use fediway.Feed.Scorer.Blind.{Holds-diversity}
use fediway.Feed.Sampler.{IsLawful}
use fediway.Feed.Sampler.TopK.{top_k-IsLawful}
use fediway.Feed.Quota.Lawful.{quota_sampler-IsLawful}
use fediway.Feed.Pipeline.{Source}
use fediway.Feed.Pipeline.Execute.{ScorerKeeps, execute-filtered, execute_total}
use fediway.Sources.PolicyFilter.{PolicyFilter, policy_filter}
use fediway.Sources.PolicyFilter.Blocks.{kept}
use fediway.Sources.CommonFeed.Types.{QueryFilters}
use fediway.Server.Home.Ranked.{policy-kept}
use fediway.Server.Timelines.{
  Inputs, Timeline, pool_size, timeline_policy, timeline_diversity, link_timeline, tag_dedup,
  tag_sampler, tag_timeline, collect,
}

-- The timeline is collected, of at most 100 posts, all of which the filter lets through.
abbrev pub IsAllowed : {F : Type 0} → PolicyFilter → Timeline F → Type 0
IsAllowed {F} f timeline =
    (items : List (Candidate Post F)) × (collect timeline ≡ some items)
    × (length items ≤ pool_size)
    × Holds (kept f) items

module _ {F : Type 0} ⦃fl : Float F⦄ where
  collect-IsAllowed :
      (timeline : Timeline F) (f : PolicyFilter) (d : Diversity Post F)
      (before : List (Filter Post (Unit {0}) F))
      → IsLawful timeline.pipeline.sampler
      → timeline.pipeline.filters ≡ before ++ policy_filter f ∷ []
      → timeline.pipeline.scorers ≡ diversity d ∷ []
      → IsAllowed f timeline
  unfolding collect policy_filter
  collect-IsAllowed timeline f d before lawful filters scorers =
      let (r, rest, run, q, n, _) = execute_total timeline.pipeline pool_size tt lawful in
      let blind =
        subst (All (ScorerKeeps (kept f) tt)) (sym scorers)
          (Holds-diversity d (kept f) (λ c x. refl) tt, tt) in
      (
        r.items,
        rw run refl,
        omega (arith, n),
        execute-filtered (kept f) tt timeline.pipeline pool_size r before (policy_filter f) []
            lawful filters (policy-kept f) tt blind run,
      )

  -- The link and the tag timeline are made without a panic, of at most 100 posts, none of which has an
  -- author whom the viewer's policy blocks, whatever the sources yield; muted authors stay.
  pub collect-timelines :
      (i : Inputs F) (native federated : Source Post F) (filters : QueryFilters)
      (url hashtag : String)
      → IsAllowed (timeline_policy i.viewer) (link_timeline i filters url)
        × IsAllowed (timeline_policy i.viewer) (tag_timeline i native federated filters hashtag)
  unfolding link_timeline tag_timeline
  collect-timelines i native federated filters url hashtag = (
    collect-IsAllowed (link_timeline i filters url) (timeline_policy i.viewer) timeline_diversity []
        top_k-IsLawful refl refl,
    collect-IsAllowed (tag_timeline i native federated filters hashtag) (timeline_policy i.viewer)
        timeline_diversity (dedup_filter tag_dedup ∷ []) (quota_sampler-IsLawful tag_sampler) refl
        refl,
  )
