-- ===== src/Feed/Filter/Unique.antt =====
-- `Dedup` of crates/feed/src/filter.rs, key by key.
use fediway.Prelude.{
  ◌≡◌, refl, ap, ◌∙◌, inl, inr, Bool, true, false, String, List, [], ◌∷◌, arith, filter, take,
  contains, str_eq, str_eq_iff, if◌then◌else◌, Bool-cases, All,
}
use fediway.Prelude.Int.{leb_ℤ_total, leb_ℤ_trans}
use fediway.Prelude.Sort.{
  sort_by, IsSorted, sort_by-IsSorted, filter-sort_by_comm, sort_by_of_IsSorted,
}
use fediway.Feed.Candidate.{Candidate}
use fediway.Feed.Filter.{Dedup, new, retain_unseen, by_priority, dedup}

contains-cons_mono :
    (seen seen' : List String) (t : String)
    → ((k : String) → contains seen k ≡ false → contains seen' k ≡ false)
    → (k : String) → contains (t ∷ seen) k ≡ false
    → contains (t ∷ seen') k ≡ false
unfolding contains
contains-cons_mono seen seen' t h k e = ground (arith, h k)

module _ {ℓ} {Item : Type ℓ} {F : Type 0} where
  abbrev pub has_key : (Candidate Item F → String) → String → Candidate Item F → Bool
  has_key key k c = str_eq (key c) k

  -- Of the candidates with one key `retain_unseen` keeps the first, unless the key is seen already.
  filter-retain_unseen :
      (key : Candidate Item F → String) (k : String) (seen : List String)
      (cs : List (Candidate Item F))
      → filter (has_key key k) (retain_unseen key seen cs)
        ≡ (if contains seen k then [] else take 1 (filter (has_key key k) cs))
  unfolding retain_unseen contains
  filter-retain_unseen key k seen [] = ground arith
  filter-retain_unseen key k seen (c ∷ cs) = ground (
    arith,
    str_eq_iff (key c) k,
    filter-retain_unseen key k seen cs,
    filter-retain_unseen key k (key c ∷ seen) cs,
  )

  module _ (d : Dedup Item F) where
    by_priority_total :
        (a b : Candidate Item F) → by_priority d a b ≡ false → by_priority d b a ≡ true
    by_priority_total a b = leb_ℤ_total (d.priority_fn a) (d.priority_fn b)

    by_priority_trans :
        (a b c : Candidate Item F)
        → by_priority d a b ≡ true
        → by_priority d b c ≡ true
        → by_priority d a c ≡ true
    by_priority_trans a b c = leb_ℤ_trans (d.priority_fn a) (d.priority_fn b) (d.priority_fn c)

    -- For every key the output holds exactly one candidate if the input holds any: the first, in the
    -- stable order by priority, of the candidates with that key.
    pub filter-dedup :
        (candidates : List (Candidate Item F)) (k : String)
        → filter (has_key d.key_fn k) (dedup d candidates)
          ≡ take 1 (sort_by (by_priority d) (filter (has_key d.key_fn k) candidates))
    unfolding dedup contains
    filter-dedup candidates k =
        filter-retain_unseen d.key_fn k [] (sort_by (by_priority d) candidates)
        ∙ ap (take 1) (
            filter-sort_by_comm (by_priority d) by_priority_total by_priority_trans
              (has_key d.key_fn k) candidates)

    retain_unseen-All :
        (P : Candidate Item F → Type 0) (seen : List String) (cs : List (Candidate Item F))
        → All P cs
        → All P (retain_unseen d.key_fn seen cs)
    unfolding retain_unseen
    retain_unseen-All P seen [] h = tt
    retain_unseen-All P seen (c ∷ cs) h = elim (Bool-cases (contains seen (d.key_fn c))) [
      | inl e ↦ rw e (retain_unseen-All P seen cs h.1)
      | inr e ↦ rw e (h.0, retain_unseen-All P (d.key_fn c ∷ seen) cs h.1)
    ]

    retain_unseen-IsSorted :
        (seen : List String) (cs : List (Candidate Item F))
        → IsSorted (by_priority d) cs
        → IsSorted (by_priority d) (retain_unseen d.key_fn seen cs)
    unfolding retain_unseen
    retain_unseen-IsSorted seen [] h = tt
    retain_unseen-IsSorted seen (c ∷ cs) h = elim (Bool-cases (contains seen (d.key_fn c))) [
      | inl e ↦ rw e (retain_unseen-IsSorted seen cs h.1)
      | inr e ↦ rw e (
        retain_unseen-All (λ y. by_priority d c y ≡ true) (d.key_fn c ∷ seen) cs h.0,
        retain_unseen-IsSorted (d.key_fn c ∷ seen) cs h.1,
      )
    ]

    dedup-IsSorted : (cs : List (Candidate Item F)) → IsSorted (by_priority d) (dedup d cs)
    unfolding dedup
    dedup-IsSorted cs =
        retain_unseen-IsSorted [] (sort_by (by_priority d) cs)
          (sort_by-IsSorted (by_priority d) by_priority_total by_priority_trans cs)

    -- What `retain` has let through it lets through again, if no more keys are seen then.
    retain_unseen_again :
        (seen seen' : List String) (cs : List (Candidate Item F))
        → ((k : String) → contains seen k ≡ false → contains seen' k ≡ false)
        → retain_unseen d.key_fn seen' (retain_unseen d.key_fn seen cs)
          ≡ retain_unseen d.key_fn seen cs
    unfolding retain_unseen
    retain_unseen_again seen seen' [] h = refl
    retain_unseen_again seen seen' (c ∷ cs) h = elim (Bool-cases (contains seen (d.key_fn c))) [
      | inl e ↦ rw e (retain_unseen_again seen seen' cs h)
      | inr e ↦
          rw (e, h (d.key_fn c) e)
            (ap (◌∷◌ c) (
              retain_unseen_again (d.key_fn c ∷ seen) (d.key_fn c ∷ seen') cs
                (contains-cons_mono seen seen' (d.key_fn c) h)))
    ]

    -- Deduplicating twice is deduplicating once.
    dedup_idem :
        (candidates : List (Candidate Item F)) → dedup d (dedup d candidates) ≡ dedup d candidates
    unfolding dedup
    dedup_idem candidates =
        ap (retain_unseen d.key_fn [])
          (sort_by_of_IsSorted (by_priority d) _ (dedup-IsSorted candidates))
        ∙ retain_unseen_again [] [] (sort_by (by_priority d) candidates) (λ k e. e)

  -- With no priority function of its own the filter keeps, for every key, the candidate that arrives
  -- first.
  filter-dedup-new :
      (key : Candidate Item F → String) (candidates : List (Candidate Item F)) (k : String)
      → filter (has_key key k) (dedup (new key) candidates)
        ≡ take 1 (filter (has_key key k) candidates)
  unfolding new
  filter-dedup-new key candidates k =
      filter-dedup (new key) candidates k
      ∙ ap (take 1) (
          sort_by_of_IsSorted (by_priority (new key)) _
            (all_alike (filter (has_key key k) candidates)))
    where
      below :
          (c : Candidate Item F) (cs : List (Candidate Item F))
          → All (λ y. by_priority (new key) c y ≡ true) cs
      below c [] = tt
      below c (y ∷ ys) = (refl, below c ys)

      all_alike : (cs : List (Candidate Item F)) → IsSorted (by_priority (new key)) cs
      all_alike [] = tt
      all_alike (c ∷ cs) = (below c cs, all_alike cs)
