-- ===== src/Feed/Sampler/TopK.antt =====
-- The `TopK` sampler of crates/feed/src/sampler.rs, and the loop over it.
use fediway.Prelude.{
  ℕ, zero, suc, ◌≡◌, refl, ap, true, some, List, [], ◌∷◌, ◌++◌, Perm, append_assoc, append-nil,
  get_elem?, All,
}
use mathlib.Core.List.Perm
use mathlib.Core.Path.{subst}
use fediway.Prelude.Float.{Float, IsIeee}
use fediway.Prelude.Sort.{IsSorted}
use fediway.Prelude.Perms.{Holds, Holds-perm, Holds-append}
use fediway.Prelude.Maxima.{enumerate, enumerate_from, enumerate-All, max_by, max_by-All}
use fediway.Feed.Candidate.{Candidate}
use fediway.Feed.Sampler.{by_score, best_index, top_k, IsLawful, sample, sample_loop}
use fediway.Feed.Sampler.Loop.{round}
use fediway.Feed.Sampler.Best.{
  is_number, at_most, best_index-entry, best_index-lt, best_index-ne-none, best-upper,
  All-enumerate_from, All-of_enumerate_from,
}

module _ {ℓ} {Item : Type ℓ} {F : Type 0} ⦃fl : Float F⦄ where
  -- `TopK` picks an index in range, and one whenever a candidate remains.
  pub top_k-IsLawful : IsLawful (top_k {Item = Item} {F = F})
  unfolding top_k enumerate_from
  top_k-IsLawful = record {
    in_range = λ remaining selected i h.
        best_index-lt remaining (enumerate remaining) i (enumerate-All remaining) h;
    eager = λ c cs selected. best_index-ne-none (0, c) (enumerate_from 1 cs);
  }

  -- Descending by score.
  abbrev pub IsDescending : List (Candidate Item F) → Type 0
  IsDescending = IsSorted (λ a b. at_most a b)

  -- Every candidate of the second list scores at most as high as every one of the first.
  abbrev pub IsAbove : List (Candidate Item F) → List (Candidate Item F) → Type 0
  IsAbove out remaining = All (λ s. Holds (at_most s) remaining) out

  module _ (laws : IsIeee fl) where
    -- The candidate that `TopK` takes out scores at least as high as all.
    taken-upper :
        (c : Candidate Item F) (cs : List (Candidate Item F)) (i : ℕ) (x : Candidate Item F)
        → Holds is_number (c ∷ cs)
        → best_index (enumerate (c ∷ cs)) ≡ some i
        → get_elem? (c ∷ cs) i ≡ some x
        → Holds (at_most x) (c ∷ cs)
    taken-upper c cs i x numbers picked at =
        let (m, found) = best_index-entry (enumerate (c ∷ cs)) i picked in
        let stands : get_elem? (c ∷ cs) i ≡ some m =
          max_by-All (λ e. get_elem? (c ∷ cs) e.0 ≡ some e.1) by_score _ (enumerate-All (c ∷ cs))
            found in
        let same : m ≡ x = cc in
        subst (λ y. Holds (at_most y) (c ∷ cs)) same
          (All-of_enumerate_from (λ e. at_most m e ≡ true) 0 (c ∷ cs)
            (best-upper laws (enumerate (c ∷ cs))
              (All-enumerate_from (λ e. is_number e ≡ true) 0 (c ∷ cs) numbers) found))

    sample_loop-IsDescending :
        (n : ℕ) (candidates selected : List (Candidate Item F))
        → Holds is_number candidates
        → (remaining out : List (Candidate Item F)) × (sample_loop top_k n candidates selected
            ≡ some (remaining, selected ++ out))
          × Perm (out ++ remaining) candidates
          × IsDescending out
          × IsAbove out remaining
    unfolding sample_loop max_by top_k
    sample_loop-IsDescending zero candidates selected numbers =
        (candidates, [], rw append-nil refl, Perm.refl _, tt, tt)
    sample_loop-IsDescending (suc n) [] selected numbers =
        ([], [], rw append-nil refl, Perm.refl _, tt, tt)
    sample_loop-IsDescending (suc n) (c ∷ cs) selected numbers =
        let (i, picked, x, rest, removed, at, p, _) = round top_k top_k-IsLawful c cs selected in
        let upper = taken-upper c cs i x numbers picked at in
        let from_rest = Holds-perm (at_most x) (c ∷ cs) (x ∷ rest) (Perm.symm p) upper in
        let numbers' = Holds-perm is_number (c ∷ cs) (x ∷ rest) (Perm.symm p) numbers in
        let (remaining, out, run, q, sorted, above) =
          sample_loop-IsDescending n rest (selected ++ x ∷ []) numbers'.1 in
        let (under_out, under_remaining) =
          Holds-append (at_most x) out remaining
            (Holds-perm (at_most x) rest (out ++ remaining) (Perm.symm q) from_rest.1) in
        (
          remaining,
          x ∷ out,
          rw (picked, sample_loop, removed, run)
              (ap (λ l. some (remaining, l)) (append_assoc selected (x ∷ []) out)),
          Perm.trans (Perm.cons x q) p,
          (under_out, sorted),
          (under_remaining, above),
        )

    -- `TopK` over candidates whose scores are numbers: the selection is in descending order of the
    -- scores, and nothing that is left scores higher than anything selected.
    pub sample-top_k-IsDescending :
        (candidates : List (Candidate Item F)) (n : ℕ)
        → Holds is_number candidates
        → (out remaining : List (Candidate Item F)) × (sample top_k candidates n ≡ some out)
          × Perm (out ++ remaining) candidates
          × IsDescending out
          × IsAbove out remaining
    unfolding sample
    sample-top_k-IsDescending candidates n numbers =
        let (remaining, out, run, p, sorted, above) =
          sample_loop-IsDescending n candidates [] numbers in
        (out, remaining, rw run refl, p, sorted, above)
