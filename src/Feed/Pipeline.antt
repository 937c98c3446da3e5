-- ===== src/Feed/Pipeline.antt =====
-- crates/feed/src/pipeline.rs, with the trait of crates/feed/src/source.rs. A source is the function
-- that one `collect` call computes; the metrics and the log lines of `execute` are left out. `none`
-- stands for the panic of `sample` on an index out of range.
pub mod Builder
pub mod Execute
use fediway.Prelude.{
  ℕ, ◌/◌, Bool, not, ◌&&◌, Option, none, some, String, List, [], ◌∷◌, ◌++◌, map, flatten, foldl,
  length, ltb, is_empty, ◌>>=◌, if◌then◌else◌,
}
use mathlib.Core.Option
use fediway.Prelude.Float.{Float}
use fediway.Feed.Candidate.{Candidate}
use fediway.Feed.Filter.{Filter}
use fediway.Feed.Scorer.{Scorer}
use fediway.Feed.Sampler.{Sampler, sample, top_k}

-- The trait `Source`.
pub record Source {ℓ} (Item : Type ℓ) (F : Type 0) : Type ℓ where
  pub name : String
  pub collect : ℕ → List (Candidate Item F)

pub record SourceSpec {ℓ} (Item : Type ℓ) (F : Type 0) : Type ℓ where
  pub source : Source Item F
  pub limit : ℕ
  pub override_group : Option String

pub record PipelineResult {ℓ} (Item : Type ℓ) (F : Type 0) : Type ℓ where
  pub items : List (Candidate Item F)
  pub collected : ℕ

pub record Pipeline {ℓ} (Item Ctx : Type ℓ) (F : Type 0) : Type ℓ where
  pub name : String
  pub sources : List (SourceSpec Item F)
  pub fallback : List (SourceSpec Item F)
  pub filters : List (Filter Item Ctx F)
  pub scorers : List (Scorer Item Ctx F)
  pub sampler : Sampler Item F

module _ {ℓ} {Item : Type ℓ} {F : Type 0} where
  abbrev pub set_group : String → Candidate Item F → Candidate Item F
  set_group group c = record c { group = group }

  -- `for c in &mut batch { c.group = group; }` under `if let Some(group)`
  abbrev pub override : Option String → List (Candidate Item F) → List (Candidate Item F)
  override none batch = batch
  override (some group) batch = map (set_group group) batch

  -- One future of `Pipeline::collect`.
  abbrev pub collect_spec : SourceSpec Item F → List (Candidate Item F)
  collect_spec spec = override spec.override_group (spec.source.collect spec.limit)

  -- `join_all` keeps the order of the futures, whatever the order in which they finish.
  unfoldable pub collect : List (SourceSpec Item F) → List (Candidate Item F)
  unfolding flatten
  collect specs = flatten (map collect_spec specs)

module _ {ℓ} {Item Ctx : Type ℓ} {F : Type 0} where
  abbrev pub apply_filters :
      List (Filter Item Ctx F) → Ctx → List (Candidate Item F) → List (Candidate Item F)
  apply_filters filters ctx candidates = foldl (λ cs filter. filter.apply ctx cs) candidates filters

  abbrev pub apply_scorers :
      List (Scorer Item Ctx F) → Ctx → List (Candidate Item F) → List (Candidate Item F)
  apply_scorers scorers ctx candidates = foldl (λ cs scorer. scorer.score ctx cs) candidates scorers

  -- The candidates after the fallback sources had their turn.
  unfoldable pub pool : Pipeline Item Ctx F → ℕ → List (Candidate Item F)
  unfolding collect
  pool p limit =
      let candidates = collect p.sources in
      if not (is_empty p.fallback) && ltb (length candidates) (limit / 2)
      then candidates ++ collect p.fallback
      else candidates

  unfoldable pub execute : Pipeline Item Ctx F → ℕ → Ctx → Option (PipelineResult Item F)
  unfolding pool
  execute p limit ctx = do
    items ←
        sample p.sampler (apply_scorers p.scorers ctx (apply_filters p.filters ctx (pool p limit)))
          limit
    some (record { items = items; collected = length (collect p.sources) })

-- `PipelineBuilder`: each method adds at the end.
pub record PipelineBuilder {ℓ} (Item Ctx : Type ℓ) (F : Type 0) : Type ℓ where
  pub name : String
  pub sources : List (SourceSpec Item F)
  pub fallback : List (SourceSpec Item F)
  pub filters : List (Filter Item Ctx F)
  pub scorers : List (Scorer Item Ctx F)
  pub sampler : Option (Sampler Item F)
