-- ===== src/Feed/Pipeline/Builder.antt =====
-- The builder of crates/feed/src/pipeline.rs.
use fediway.Prelude.{ℕ, Option, none, some, String, List, [], ◌∷◌, ◌++◌, map}
use mathlib.Core.Option
use fediway.Prelude.Float.{Float}
use fediway.Feed.Filter.{Filter}
use fediway.Feed.Scorer.{Scorer}
use fediway.Feed.Sampler.{Sampler, top_k}
use fediway.Feed.Pipeline.{Source, SourceSpec, Pipeline, PipelineBuilder}

module _ {ℓ} {Item : Type ℓ} {F : Type 0} where
  -- The specs that `sources`, `group` and `fallback` push in their loops.
  abbrev pub specs : Option String → List (Source Item F) → ℕ → List (SourceSpec Item F)
  specs group ss limit = map (λ s. record { source = s; limit = limit; override_group = group }) ss

module _ {ℓ} {Item Ctx : Type ℓ} {F : Type 0} where
  unfoldable pub new : PipelineBuilder Item Ctx F
  new = record {
    name = "unnamed";
    sources = [];
    fallback = [];
    filters = [];
    scorers = [];
    sampler = none;
  }

  unfoldable pub name : String → PipelineBuilder Item Ctx F → PipelineBuilder Item Ctx F
  name n b = record b { name = n }

  unfoldable pub source :
      Source Item F → ℕ → PipelineBuilder Item Ctx F → PipelineBuilder Item Ctx F
  source s limit b = record b {
    sources = b.sources ++ record { source = s; limit = limit; override_group = none } ∷ [];
  }

  unfoldable pub sources :
      List (Source Item F) → ℕ → PipelineBuilder Item Ctx F → PipelineBuilder Item Ctx F
  sources ss limit b = record b { sources = b.sources ++ specs none ss limit }

  unfoldable pub group :
      String → List (Source Item F) → ℕ → PipelineBuilder Item Ctx F → PipelineBuilder Item Ctx F
  group g ss limit b = record b { sources = b.sources ++ specs (some g) ss limit }

  unfoldable pub fallback :
      List (Source Item F) → ℕ → PipelineBuilder Item Ctx F → PipelineBuilder Item Ctx F
  fallback ss limit b = record b { fallback = b.fallback ++ specs (some "_fallback") ss limit }

  unfoldable pub filter :
      Filter Item Ctx F → PipelineBuilder Item Ctx F → PipelineBuilder Item Ctx F
  filter f b = record b { filters = b.filters ++ f ∷ [] }

  unfoldable pub score : Scorer Item Ctx F → PipelineBuilder Item Ctx F → PipelineBuilder Item Ctx F
  score s b = record b { scorers = b.scorers ++ s ∷ [] }

  unfoldable pub sampler : Sampler Item F → PipelineBuilder Item Ctx F → PipelineBuilder Item Ctx F
  sampler s b = record b { sampler = some s }

module _ {ℓ} {Item Ctx : Type ℓ} {F : Type 0} ⦃fl : Float F⦄ where
  unfoldable pub build : PipelineBuilder Item Ctx F → Pipeline Item Ctx F
  build b = record {
    name = b.name;
    sources = b.sources;
    fallback = b.fallback;
    filters = b.filters;
    scorers = b.scorers;
    sampler = Option.get_or b.sampler top_k;
  }
