-- ===== src/Feed/Scorer/Blind.antt =====
-- `Diversity` and the tests that do not look at the score.
use mathlib.Core.Option
use fediway.Prelude.{
  ℕ, ◌+◌, ◌≡◌, refl, ◌∙◌, Bool, true, false, String, List, [], ◌∷◌, arith, ltb, if◌then◌else◌,
}
use fediway.Prelude.Float.{Float}
use fediway.Prelude.Map
use fediway.Prelude.Map.{Map, String_eq}
use fediway.Prelude.Perms.{Holds, count}
use fediway.Feed.Candidate.{Candidate}
use fediway.Feed.Scorer.{Diversity, diversity_loop, diversity}

module _ {ℓ} {Item : Type ℓ} {F : Type 0} ⦃fl : Float F⦄ (d : Diversity Item F)
    (p : Candidate Item F → Bool) where
  abbrev pub IsBlind : Type ℓ
  IsBlind = (c : Candidate Item F) (x : F) → p (record c { score = x }) ≡ p c

  test-scored :
      IsBlind
      → (c : Candidate Item F) (again : Bool)
      → p (if again then record c { score = fl.mul c.score d.penalty } else c) ≡ p c
  test-scored blind c true = blind c _
  test-scored blind c false = refl

  Holds-diversity_loop :
      IsBlind
      → (seen : Map String ℕ) (cs : List (Candidate Item F)) → Holds p cs
      → Holds p (diversity_loop d seen cs)
  unfolding diversity_loop
  Holds-diversity_loop blind seen [] h = tt
  Holds-diversity_loop blind seen (c ∷ cs) h =
      let n = Option.get_or (Map.get (d.key_fn c.item) seen) 0 in
      (
        test-scored blind c (ltb 0 n) ∙ h.0,
        Holds-diversity_loop blind (Map.insert (d.key_fn c.item) (n + 1) seen) cs h.1,
      )

  pub Holds-diversity :
      {Ctx : Type ℓ}
      → IsBlind
      → (ctx : Ctx) (cs : List (Candidate Item F)) → Holds p cs
      → Holds p ((diversity d).score ctx cs)
  unfolding diversity
  Holds-diversity blind ctx cs = Holds-diversity_loop blind [] cs

  count-diversity_loop :
      IsBlind
      → (seen : Map String ℕ) (cs : List (Candidate Item F))
      → count p (diversity_loop d seen cs) ≡ count p cs
  unfolding diversity_loop
  count-diversity_loop blind seen [] = refl
  count-diversity_loop blind seen (c ∷ cs) =
      let n = Option.get_or (Map.get (d.key_fn c.item) seen) 0 in
      let rest = count-diversity_loop blind (Map.insert (d.key_fn c.item) (n + 1) seen) cs in
      ground (arith, test-scored blind c (ltb 0 n), rest)

  pub count-diversity :
      {Ctx : Type ℓ}
      → IsBlind
      → (ctx : Ctx) (cs : List (Candidate Item F))
      → count p ((diversity d).score ctx cs) ≡ count p cs
  unfolding diversity
  count-diversity blind ctx cs = count-diversity_loop blind [] cs
