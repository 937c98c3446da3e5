-- ===== src/Tests/Filtering.antt =====
-- The filter, the scorer and the pipeline on concrete candidates.
use mathlib.Core.Option
use fediway.Prelude.{
  ℕ, min, ◌≡◌, refl, Bool, some, String, List, [], ◌∷◌, ◌++◌, Perm, length, ltb, any, take, inl,
  inr, Bool-cases, get_elem?, filter, contains, str_eq, if◌then◌else◌,
}
use fediway.Prelude.Int.{ℤ, pos, negsuc}
use fediway.Prelude.Map
use fediway.Prelude.Perms.{Holds}
use fediway.Prelude.Sort.{sort_by}
use fediway.Prelude.Maxima.{enumerate_from, max_by}
use fediway.Feed.Candidate.{Candidate}
use fediway.Feed.Filter
use fediway.Feed.Filter.{Filter, Dedup, dedup, by_priority}
use fediway.Feed.Filter.Unique.{has_key, filter-dedup}
use fediway.Feed.Scorer.{Diversity, diversity}
use fediway.Feed.Scorer.Penalty.{penalize, shares_key, diversity-at}
use fediway.Feed.Sampler.{top_k, sample}
use fediway.Feed.Sampler.TopK.{top_k-IsLawful}
use fediway.Feed.Pipeline.{Source, Pipeline, PipelineResult, collect, execute}
use fediway.Feed.Pipeline.Builder
use fediway.Feed.Pipeline.Execute.{scored, execute_total, execute-filtered}
use fediway.Tests.Scores.{hundredths, Post, post}

abbrev remote_copy : Candidate Post ℕ
remote_copy = post "p" "trending" 900

abbrev local_copy : Candidate Post ℕ
local_copy = post "p" "network" 100

abbrev other : Candidate Post ℕ
other = post "q" "network" 200

abbrev arrivals : List (Candidate Post ℕ)
arrivals = remote_copy ∷ other ∷ local_copy ∷ []

abbrev by_item : Candidate Post ℕ → String
by_item c = c.item

abbrev local_first : Candidate Post ℕ → ℤ
local_first c = if str_eq c.group "network" then negsuc 0 else pos 0

abbrev prefer_local : Dedup Post ℕ
prefer_local = record { key_fn = by_item; priority_fn = local_first }

program : Unit {0}
unfolding dedup sort_by contains diversity Map.get Map.insert sample top_k enumerate_from max_by
    execute Builder.new Builder.name Builder.group Builder.fallback Builder.filter Builder.score
    Builder.build Filter.dedup_filter Filter.new
program = tt

prefer_run : dedup prefer_local arrivals ≡ other ∷ local_copy ∷ []
unfolding program
prefer_run = refl

filter-dedup_example :
    filter (has_key by_item "p") (dedup prefer_local arrivals)
    ≡ take 1 (sort_by (by_priority prefer_local) (filter (has_key by_item "p") arrivals))
filter-dedup_example = filter-dedup prefer_local arrivals "p"

abbrev by_author : Diversity Post ℕ
by_author = record { penalty = 15; key_fn = λ p. p }

diversity_run :
    (diversity {Ctx = Unit {0}} by_author).score tt arrivals
    ≡ remote_copy ∷ other ∷ record local_copy { score = 15 } ∷ []
unfolding program
diversity_run = refl

diversity-at_example :
    get_elem? ((diversity {Ctx = Unit {0}} by_author).score tt arrivals) 2
    ≡ Option.map
        (λ c. if any (shares_key by_author c) (take 2 arrivals) then penalize by_author c else c)
        (get_elem? arrivals 2)
diversity-at_example = diversity-at by_author tt arrivals 2

-- A source that yields what it is given, and as much as it is asked for.
abbrev fixed : String → List (Candidate Post ℕ) → Source Post ℕ
fixed name cs = record { name = name; collect = λ limit. take limit cs }

abbrev feed : Pipeline Post (Unit {0}) ℕ
feed = Builder.build (
    Builder.score (diversity by_author) (
      Builder.filter (Filter.dedup_filter (Filter.new by_item)) (
        Builder.fallback (fixed "backup" (post "r" "backup" 50 ∷ []) ∷ []) 10
          (Builder.group "main" (fixed "db" arrivals ∷ []) 2 Builder.new))))

feed_run :
    execute feed 6 tt
    ≡ some (record {
      items =
          record remote_copy { group = "main" }
          ∷ record other { group = "main" }
          ∷ record (post "r" "backup" 50) { group = "_fallback" }
          ∷ [];
      collected = 2;
    })
unfolding program
feed_run = refl

execute_total_example :
    (r : PipelineResult Post ℕ) × (rest : List (Candidate Post ℕ)) × (execute feed 6 tt ≡ some r)
    × Perm (r.items ++ rest) (scored feed 6 tt)
    × (length r.items ≡ min 6 (length (scored feed 6 tt)))
    × (r.collected ≡ length (collect feed.sources))
unfolding program
execute_total_example = execute_total feed 6 tt top_k-IsLawful

-- A filter that lets everything below a score of 300 through.
abbrev cheap : Candidate Post ℕ → Bool
cheap c = ltb c.score 300

abbrev cheap_only : Filter Post (Unit {0}) ℕ
cheap_only = record { apply = λ _ cs. filter cheap cs }

filter-cheap : (cs : List (Candidate Post ℕ)) → Holds cheap (filter cheap cs)
filter-cheap [] = tt
filter-cheap (c ∷ cs) = elim (Bool-cases (cheap c)) [
  | inl e ↦ rw e (e, filter-cheap cs)
  | inr e ↦ rw e (filter-cheap cs)
]

abbrev cheap_feed : Pipeline Post (Unit {0}) ℕ
cheap_feed = record feed { filters = cheap_only ∷ []; scorers = [] }

abbrev cheap_result : PipelineResult Post ℕ
cheap_result = record {
  items =
      record other { group = "main" } ∷ record (post "r" "backup" 50) { group = "_fallback" } ∷ [];
  collected = 2;
}

execute-filtered_example : Holds cheap cheap_result.items
unfolding program
execute-filtered_example =
    execute-filtered cheap tt cheap_feed 6 cheap_result [] cheap_only [] top_k-IsLawful refl
      filter-cheap tt tt refl
