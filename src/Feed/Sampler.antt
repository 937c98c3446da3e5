-- ===== src/Feed/Sampler.antt =====
-- crates/feed/src/sampler.rs: the selection loop over any sampler, and the `TopK` sampler. `none` as
-- the result of `sample` stands for the panic of `Vec::swap_remove` on an index out of range.
pub mod Loop
pub mod Best
pub mod TopK
use fediway.Prelude.{
  ℕ, zero, suc, ◌<◌, ◌≡◌, ◌≢◌, Bool, Option, none, some, List, [], ◌∷◌, ◌++◌, Ordering, length,
  get_elem?, set, ◌>>=◌,
}
use fediway.Prelude.Float.{Float, cmp_or_equal}
use fediway.Prelude.Maxima.{enumerate, max_by}
use fediway.Feed.Candidate.{Candidate}

module _ {ℓ} {A : Type ℓ} where
  pub last? : List A → Option A
  last? [] = none
  last? (x ∷ []) = some x
  last? (x ∷ y ∷ ys) = last? (y ∷ ys)

  -- `Vec::pop`, without the element
  pub drop_last : List A → List A
  drop_last [] = []
  drop_last (x ∷ []) = []
  drop_last (x ∷ y ∷ ys) = x ∷ drop_last (y ∷ ys)

  -- `Vec::swap_remove`: the last element takes the place of the one that is removed.
  unfoldable pub swap_remove : List A → ℕ → Option (A × List A)
  unfolding last? drop_last
  swap_remove xs i = do x ← get_elem? xs i; last ← last? xs; some (x, drop_last (set xs i last))

module _ {ℓ} (Item : Type ℓ) (F : Type 0) where
  -- The trait `Sampler`: an index into `remaining`, from what remains and what is selected.
  pub record Sampler : Type ℓ where
    pub pick : List (Candidate Item F) → List (Candidate Item F) → Option ℕ

module _ {ℓ} {Item : Type ℓ} {F : Type 0} where
  -- What the loop relies on: an index in range, and an index whenever something remains.
  pub record IsLawful (s : Sampler Item F) : Type ℓ where
    pub in_range :
        (remaining selected : List (Candidate Item F)) (i : ℕ)
        → s.pick remaining selected ≡ some i
        → i < length remaining
    pub eager :
        (c : Candidate Item F) (cs selected : List (Candidate Item F))
        → s.pick (c ∷ cs) selected ≢ none

  -- The loop of `sample` over its two variables, what remains and what is selected.
  pub sample_loop :
      Sampler Item F
      → ℕ
      → List (Candidate Item F)
      → List (Candidate Item F)
      → Option (List (Candidate Item F) × List (Candidate Item F))
  sample_loop s zero candidates selected = some (candidates, selected)
  sample_loop s (suc n) [] selected = some ([], selected)
  sample_loop s (suc n) (c ∷ cs) selected = elim (s.pick (c ∷ cs) selected) [
    | none ↦ some (c ∷ cs, selected)
    | some i ↦ do (x, rest) ← swap_remove (c ∷ cs) i; sample_loop s n rest (selected ++ x ∷ [])
  ]

  unfoldable pub sample :
      Sampler Item F → List (Candidate Item F) → ℕ → Option (List (Candidate Item F))
  unfolding sample_loop swap_remove
  sample s candidates n = do (remaining, selected) ← sample_loop s n candidates []; some selected

module _ {ℓ} {Item : Type ℓ} {F : Type 0} ⦃fl : Float F⦄ where
  -- The comparison of `max_by` over enumerated candidates.
  abbrev pub by_score : ℕ × Candidate Item F → ℕ × Candidate Item F → Ordering
  by_score a b = cmp_or_equal a.1.score b.1.score

  -- `.max_by(…).map(|(i, _)| i)`
  abbrev pub best_index : List (ℕ × Candidate Item F) → Option ℕ
  best_index entries = max_by by_score entries >>= λ e. some e.0

  unfoldable pub top_k : Sampler Item F
  top_k = record { pick = λ remaining selected. best_index (enumerate remaining) }
