-- ===== src/Feed/Scorer.antt =====
-- crates/feed/src/scorer.rs
pub mod Penalty
pub mod Blind
use fediway.Prelude.{ℕ, suc, ◌+◌, Option, String, List, [], ◌∷◌, ltb, if◌then◌else◌}
use fediway.Prelude.Float.{Float}
use fediway.Prelude.Map
use fediway.Prelude.Map.{Map, String_eq}
use mathlib.Core.Option
use fediway.Feed.Candidate.{Candidate}

-- The trait `Scorer`: it changes the candidates in place.
pub record Scorer {ℓ} (Item Ctx : Type ℓ) (F : Type 0) : Type ℓ where
  pub name : String
  pub score : Ctx → List (Candidate Item F) → List (Candidate Item F)

pub record Diversity {ℓ} (Item : Type ℓ) (F : Type 0) : Type ℓ where
  pub penalty : F
  pub key_fn : Item → String

module _ {ℓ} {Item : Type ℓ} {F : Type 0} ⦃fl : Float F⦄ where
  -- The loop over the candidates, on the map of how often each key was seen.
  diversity_loop :
      Diversity Item F → Map String ℕ → List (Candidate Item F) → List (Candidate Item F)
  diversity_loop d seen [] = []
  diversity_loop d seen (c ∷ cs) =
      let key = d.key_fn c.item in
      let count = Option.get_or (Map.get key seen) 0 in
      let scored = if ltb 0 count then record c { score = fl.mul c.score d.penalty } else c in
      scored ∷ diversity_loop d (Map.insert key (count + 1) seen) cs

  unfoldable pub diversity : {Ctx : Type ℓ} → Diversity Item F → Scorer Item Ctx F
  unfolding diversity_loop
  diversity d = record { name = "diversity"; score = λ _. diversity_loop d [] }
