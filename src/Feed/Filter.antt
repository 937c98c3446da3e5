-- ===== src/Feed/Filter.antt =====
-- crates/feed/src/filter.rs
pub mod Unique
use fediway.Prelude.{ℕ, ◌≡◌, Bool, String, List, [], ◌∷◌, contains, if◌then◌else◌}
use fediway.Prelude.Int.{ℤ, pos, leb_ℤ}
use fediway.Prelude.Sort.{sort_by}
use fediway.Feed.Candidate.{Candidate}

-- The trait `Filter`: the candidates that stay, in a context.
pub record Filter {ℓ} (Item Ctx : Type ℓ) (F : Type 0) : Type ℓ where
  pub apply : Ctx → List (Candidate Item F) → List (Candidate Item F)

-- `Dedup`, with its two closures. The priority is an `i32`.
pub record Dedup {ℓ} (Item : Type ℓ) (F : Type 0) : Type ℓ where
  pub key_fn : Candidate Item F → String
  pub priority_fn : Candidate Item F → ℤ

module _ {ℓ} {Item : Type ℓ} {F : Type 0} where
  unfoldable pub new : (Candidate Item F → String) → Dedup Item F
  new key_fn = record { key_fn = key_fn; priority_fn = λ _. pos 0 }

  unfoldable pub prefer : (Candidate Item F → ℤ) → Dedup Item F → Dedup Item F
  prefer priority_fn d = record d { priority_fn = priority_fn }

  -- `retain(|c| seen.insert(key(c)))`
  retain_unseen :
      (Candidate Item F → String) → List String → List (Candidate Item F) → List (Candidate Item F)
  retain_unseen key seen [] = []
  retain_unseen key seen (c ∷ cs) =
      let first = c ∷ retain_unseen key (key c ∷ seen) cs in
      let again = retain_unseen key seen cs in if contains seen (key c) then again else first

  -- `sort_by_key` compares the priorities, and is stable.
  abbrev pub by_priority : Dedup Item F → Candidate Item F → Candidate Item F → Bool
  by_priority d a b = leb_ℤ (d.priority_fn a) (d.priority_fn b)

  unfoldable pub dedup : Dedup Item F → List (Candidate Item F) → List (Candidate Item F)
  unfolding retain_unseen
  dedup d candidates = retain_unseen d.key_fn [] (sort_by (by_priority d) candidates)

module _ {ℓ} {Item Ctx : Type ℓ} {F : Type 0} where
  unfoldable pub dedup_filter : Dedup Item F → Filter Item Ctx F
  unfolding dedup
  dedup_filter d = record { apply = λ _. dedup d }
