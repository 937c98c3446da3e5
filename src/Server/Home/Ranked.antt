-- ===== src/Server/Home/Ranked.antt =====
-- What the ranked pool of apps/server/src/feeds/home.rs holds.
use fediway.Prelude.{
  All, ◌++◌, Perm, ◌≡◌, ◌≤◌, refl, ap, sym, ◌∙◌, Bool, some, String, List, [], ◌∷◌, arith, length,
  filter, str_eq, length-take, Bool-cases, inl, inr, >>=-eq-some,
}
use fediway.Prelude.Float.{Float}
use fediway.Prelude.Perms.{Holds, count, AtMostOne, AtMostOne-perm, count-append, count-filter-le}
use fediway.Common.Types.{Post}
use fediway.Feed.Candidate.{Candidate}
use fediway.Feed.Pipeline.{PipelineResult, pool, execute, apply_filters, apply_scorers}
use fediway.Feed.Pipeline.Execute.{ScorerKeeps, execute-filtered, execute_total, scored}
use fediway.Feed.Filter.Unique.{filter-dedup, has_key}
use fediway.Feed.Filter.{by_priority, dedup, dedup_filter}
use mathlib.Core.Path.{subst}
use mathlib.Core.List.Perm
use fediway.Prelude.Sort.{sort_by}
use fediway.Feed.Scorer.{diversity}
use fediway.Feed.Scorer.Blind.{Holds-diversity, count-diversity}
use fediway.Feed.Sampler.{IsLawful}
use fediway.Feed.Quota.Lawful.{quota_sampler-IsLawful}
use fediway.Sources.PolicyFilter
use fediway.Sources.PolicyFilter.{PolicyFilter, policy_filter, apply}
use fediway.Sources.PolicyFilter.Blocks.{kept, apply-eq-filter}
use fediway.Server.Home.{
  Inputs, identity, policy_of, home_sampler, home_dedup, home_diversity, pool_size, new, collect,
}

filter-Holds {ℓ} : {A : Type ℓ} (p : A → Bool) (xs : List A) → Holds p (filter p xs)
filter-Holds p [] = tt
filter-Holds p (x ∷ xs) = elim (Bool-cases (p x)) [
  | inl e ↦ rw e (e, filter-Holds p xs)
  | inr e ↦ rw e (filter-Holds p xs)
]

-- The policy filter lets only posts through that the policy does not hide.
pub policy-kept :
    {F : Type 0} (f : PolicyFilter) (cs : List (Candidate Post F)) → Holds (kept f) (apply f cs)
policy-kept f cs = subst (Holds (kept f)) (sym (apply-eq-filter f cs)) (filter-Holds (kept f) cs)

module _ {F : Type 0} ⦃fl : Float F⦄ (i : Inputs F) where
  abbrev pub home_policy : PolicyFilter
  home_policy = PolicyFilter.new (policy_of i)

  collect-execute :
      (items : List (Candidate Post F))
      → collect (new i) ≡ some items
      → (r : PipelineResult Post F) × (execute (new i).pipeline 300 tt ≡ some r) × (r.items ≡ items)
  unfolding collect
  collect-execute items h =
      let (r, run, e) = >>=-eq-some (execute (new i).pipeline 300 tt) _ h in
      let same : r.items ≡ items = cc in (r, run, same)

  new-IsLawful : IsLawful (new i).pipeline.sampler
  unfolding new
  new-IsLawful = quota_sampler-IsLawful (home_sampler i.has_vector)

  new-filters : (new i).pipeline.filters ≡ dedup_filter home_dedup ∷ policy_filter home_policy ∷ []
  unfolding new
  new-filters = elim (Bool-cases i.has_vector) [ inl e ↦ rw e refl | inr e ↦ rw e refl ]

  new-scorers : (new i).pipeline.scorers ≡ diversity home_diversity ∷ []
  unfolding new
  new-scorers = elim (Bool-cases i.has_vector) [ inl e ↦ rw e refl | inr e ↦ rw e refl ]

  collect-kept :
      (items : List (Candidate Post F))
      → collect (new i) ≡ some items
      → Holds (kept home_policy) items
  unfolding policy_filter
  collect-kept items h =
      let (r, run, e) = collect-execute items h in
      let scorers =
        subst (All (ScorerKeeps (kept home_policy) tt)) (sym new-scorers)
          (Holds-diversity home_diversity (kept home_policy) (λ c x. refl) tt, tt) in
      subst (Holds (kept home_policy)) e (
        execute-filtered (kept home_policy) tt (new i).pipeline 300 r (dedup_filter home_dedup ∷ [])
          (policy_filter home_policy) [] new-IsLawful new-filters (policy-kept home_policy) tt
          scorers run)

  abbrev pub has_identity : String → Candidate Post F → Bool
  has_identity k c = str_eq (identity c.item) k

  count-dedup :
      (k : String) (cs : List (Candidate Post F)) → count (has_identity k) (dedup home_dedup cs) ≤ 1
  unfolding home_dedup
  count-dedup k cs =
      let e = ap length (filter-dedup home_dedup cs k) in
      omega (
        arith,
        e,
        length-take 1 (sort_by (by_priority home_dedup) (filter (has_key home_dedup.key_fn k) cs)),
      )

  count-policy :
      (k : String) (cs : List (Candidate Post F))
      → count (has_identity k) (apply home_policy cs) ≤ count (has_identity k) cs
  count-policy k cs =
      subst (λ xs. count (has_identity k) xs ≤ count (has_identity k) cs)
        (sym (apply-eq-filter home_policy cs))
        (count-filter-le (has_identity k) (kept home_policy) cs)

  abbrev ranked : List (Candidate Post F) → List (Candidate Post F)
  ranked cs = (diversity home_diversity).score tt (apply home_policy (dedup home_dedup cs))

  scored-ranked : scored (new i).pipeline 300 tt ≡ ranked (pool (new i).pipeline 300)
  unfolding policy_filter dedup_filter
  scored-ranked =
      ap
        (λ fs.
          apply_scorers (new i).pipeline.scorers tt
            (apply_filters fs tt (pool (new i).pipeline 300)))
        new-filters
      ∙ ap
          (λ ss.
            apply_scorers ss tt (apply home_policy (dedup home_dedup (pool (new i).pipeline 300))))
          new-scorers

  AtMostOne-ranked :
      (k : String) (cs : List (Candidate Post F)) → AtMostOne (has_identity k) (ranked cs)
  AtMostOne-ranked k cs =
      let once = dedup home_dedup cs in
      ground (
        arith,
        count-diversity home_diversity (has_identity k) (λ c x. refl) tt (apply home_policy once),
        count-policy k once,
        count-dedup k cs,
      )

  AtMostOne-front :
      (k : String) (out rest : List (Candidate Post F))
      → AtMostOne (has_identity k) (out ++ rest)
      → AtMostOne (has_identity k) out
  AtMostOne-front k out rest h = ground (arith, count-append (has_identity k) out rest)

  -- The pool is made without a panic, of at most 300 posts, no two of which have the same identity,
  -- and none of which has an author whom the user's policy hides, whatever the sources yield.
  pub collect-new :
      (items : List (Candidate Post F)) × (collect (new i) ≡ some items)
      × (length items ≤ pool_size)
      × ((k : String) → AtMostOne (has_identity k) items)
      × Holds (kept home_policy) items
  unfolding collect
  collect-new =
      let (r, rest, run, q, n, _) = execute_total (new i).pipeline 300 tt new-IsLawful in
      let ran : collect (new i) ≡ some r.items = rw run refl in
      let all = subst (Perm (r.items ++ rest)) scored-ranked q in
      (
        r.items,
        ran,
        omega (arith, n),
        (λ k. AtMostOne-front k r.items rest (
            AtMostOne-perm (has_identity k) _ _ (Perm.symm all)
              (AtMostOne-ranked k (pool (new i).pipeline 300)))),
        collect-kept r.items ran,
      )
