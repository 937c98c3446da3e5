-- ===== src/Feed/Candidate.antt =====
-- crates/feed/src/candidate.rs
use fediway.Prelude.{String}
use fediway.Prelude.Float.{Float}

pub record Candidate {ℓ} (Item : Type ℓ) (F : Type 0) : Type ℓ where
  pub item : Item
  pub score : F
  pub source : String
  pub group : String

-- `Candidate::new`: the score starts at zero and the group is the source.
module _ {ℓ} {Item : Type ℓ} {F : Type 0} ⦃fl : Float F⦄ where
  unfoldable pub new : Item → String → Candidate Item F
  new item source = record { item = item; score = fl.zero; source = source; group = source }
