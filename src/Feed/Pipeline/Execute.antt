-- ===== src/Feed/Pipeline/Execute.antt =====
-- `Pipeline::execute` of crates/feed/src/pipeline.rs under a lawful sampler.
use fediway.Prelude.{
  ℕ, ◌/◌, min, ◌≡◌, refl, ap, sym, ◌∙◌, Bool, true, false, not, ◌&&◌, some, List, [], ◌∷◌, ◌++◌,
  flatten, Perm, append-nil, length, ltb, All, >>=-eq-some, if◌then◌else◌, is_empty,
}
use mathlib.Core.Path.{subst}
use mathlib.Core.List.Perm
use fediway.Prelude.Perms.{Holds, Holds-perm, Holds-append}
use fediway.Feed.Candidate.{Candidate}
use fediway.Feed.Filter.{Filter}
use fediway.Feed.Scorer.{Scorer}
use fediway.Feed.Sampler.{IsLawful, sample}
use fediway.Feed.Sampler.Loop.{sample-perm}
use fediway.Feed.Pipeline.{
  SourceSpec, PipelineResult, Pipeline, collect, apply_filters, apply_scorers, pool, execute,
}

some_same {ℓ} : {A : Type ℓ} {a b : A} → some a ≡ some b → a ≡ b
some_same h = cc

module _ {ℓ} {Item : Type ℓ} {F : Type 0} where
  pool-fallback :
      (fallback : List (SourceSpec Item F)) (cs : List (Candidate Item F)) (short : Bool)
      → (if not (is_empty fallback) && short then cs ++ collect fallback else cs)
        ≡ (if short then cs ++ collect fallback else cs)
  unfolding collect flatten
  pool-fallback [] cs true = sym (append-nil cs)
  pool-fallback [] cs false = refl
  pool-fallback (f ∷ fs) cs short = refl

module _ {ℓ} {Item Ctx : Type ℓ} {F : Type 0} where
  -- The fallback sources are added exactly if the main ones yield fewer than half of the limit.
  pool-eq :
      (p : Pipeline Item Ctx F) (limit : ℕ)
      → pool p limit ≡ (
          if ltb (length (collect p.sources)) (limit / 2)
          then collect p.sources ++ collect p.fallback
          else collect p.sources)
  unfolding pool
  pool-eq p limit =
      pool-fallback p.fallback (collect p.sources) (ltb (length (collect p.sources)) (limit / 2))

  -- The candidates that the sampler is given.
  abbrev pub scored : Pipeline Item Ctx F → ℕ → Ctx → List (Candidate Item F)
  scored p limit ctx = apply_scorers p.scorers ctx (apply_filters p.filters ctx (pool p limit))

  -- Under a lawful sampler `execute` returns. The items are taken from the scored candidates, each
  -- as often as it stands there at most, and are as many as asked for, or all there are; the count
  -- is that of the main sources alone.
  pub execute_total :
      (p : Pipeline Item Ctx F) (limit : ℕ) (ctx : Ctx)
      → IsLawful p.sampler
      → (r : PipelineResult Item F) × (rest : List (Candidate Item F)) × (execute p limit ctx
          ≡ some r)
        × Perm (r.items ++ rest) (scored p limit ctx)
        × (length r.items ≡ min limit (length (scored p limit ctx)))
        × (r.collected ≡ length (collect p.sources))
  unfolding execute
  execute_total p limit ctx lawful =
      let (out, rest, run, q, n) = sample-perm p.sampler lawful (scored p limit ctx) limit in
      (
        record { items = out; collected = length (collect p.sources) },
        rest,
        rw run refl,
        q,
        n,
        refl,
      )

  execute-scored :
      (p : Pipeline Item Ctx F) (limit : ℕ) (ctx : Ctx) (r : PipelineResult Item F)
      → execute p limit ctx ≡ some r
      → sample p.sampler (scored p limit ctx) limit ≡ some r.items
  unfolding execute
  execute-scored p limit ctx r h =
      let (out, run, e) = >>=-eq-some (sample p.sampler (scored p limit ctx) limit) _ h in
      let same : out ≡ r.items = cc in run ∙ ap some same

  module _ (p : Candidate Item F → Bool) (ctx : Ctx) where
    -- A filter or scorer that keeps the property `p` of all candidates, or establishes it.
    abbrev pub FilterKeeps : Filter Item Ctx F → Type ℓ
    FilterKeeps f = (cs : List (Candidate Item F)) → Holds p cs → Holds p (f.apply ctx cs)

    abbrev pub FilterGives : Filter Item Ctx F → Type ℓ
    FilterGives f = (cs : List (Candidate Item F)) → Holds p (f.apply ctx cs)

    abbrev pub ScorerKeeps : Scorer Item Ctx F → Type ℓ
    ScorerKeeps s = (cs : List (Candidate Item F)) → Holds p cs → Holds p (s.score ctx cs)

    apply_filters-Holds :
        (filters : List (Filter Item Ctx F)) (cs : List (Candidate Item F))
        → All FilterKeeps filters
        → Holds p cs
        → Holds p (apply_filters filters ctx cs)
    apply_filters-Holds [] cs k h = h
    apply_filters-Holds (f ∷ fs) cs k h = apply_filters-Holds fs (f.apply ctx cs) k.1 (k.0 cs h)

    apply_scorers-Holds :
        (scorers : List (Scorer Item Ctx F)) (cs : List (Candidate Item F))
        → All ScorerKeeps scorers
        → Holds p cs
        → Holds p (apply_scorers scorers ctx cs)
    apply_scorers-Holds [] cs k h = h
    apply_scorers-Holds (s ∷ ss) cs k h = apply_scorers-Holds ss (s.score ctx cs) k.1 (k.0 cs h)

    filters_establish :
        (before : List (Filter Item Ctx F)) (f : Filter Item Ctx F)
        (after : List (Filter Item Ctx F)) (cs : List (Candidate Item F))
        → FilterGives f
        → All FilterKeeps after
        → Holds p (apply_filters (before ++ f ∷ after) ctx cs)
    filters_establish [] f after cs g k = apply_filters-Holds after (f.apply ctx cs) k (g cs)
    filters_establish (b ∷ bs) f after cs g k = filters_establish bs f after (b.apply ctx cs) g k

    -- What one filter establishes, and the later filters and all scorers keep, holds of every item
    -- of the result, whatever the sources yield.
    pub execute-filtered :
        (pl : Pipeline Item Ctx F) (limit : ℕ) (r : PipelineResult Item F)
        (before : List (Filter Item Ctx F)) (f : Filter Item Ctx F)
        (after : List (Filter Item Ctx F))
        → IsLawful pl.sampler
        → pl.filters ≡ before ++ f ∷ after
        → FilterGives f
        → All FilterKeeps after
        → All ScorerKeeps pl.scorers
        → execute pl limit ctx ≡ some r
        → Holds p r.items
    execute-filtered pl limit r before f after lawful split gives keeps scorers run =
        let filtered = filters_establish before f after (pool pl limit) gives keeps in
        let all : Holds p (scored pl limit ctx) =
          apply_scorers-Holds pl.scorers _ scorers
            (subst (λ fs. Holds p (apply_filters fs ctx (pool pl limit))) (sym split) filtered) in
        let (out, rest, ran, q, _) = sample-perm pl.sampler lawful (scored pl limit ctx) limit in
        let same : out ≡ r.items = some_same (sym ran ∙ execute-scored pl limit ctx r run) in
        subst (Holds p) same
          (Holds-append p out rest
            (Holds-perm p (scored pl limit ctx) (out ++ rest) (Perm.symm q) all)).0
