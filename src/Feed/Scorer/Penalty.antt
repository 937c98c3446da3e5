-- ===== src/Feed/Scorer/Penalty.antt =====
-- `Diversity`: what it does to the candidate at each position.
use mathlib.Core.Option
use fediway.Prelude.{
  ℕ, zero, suc, ◌+◌, ◌≡◌, refl, Bool, ◌||◌, some, String, List, [], ◌∷◌, arith, ltb, any, take,
  get_elem?, str_eq, if◌then◌else◌, Option-cases, inl, inr, ap,
}
use fediway.Prelude.Float.{Float}
use fediway.Prelude.Map
use fediway.Prelude.Map.{Map, String_eq, get-insert}
use fediway.Feed.Candidate.{Candidate}
use fediway.Feed.Scorer.{Diversity, diversity_loop, diversity}

abbrev was_seen : Map String ℕ → String → Bool
was_seen seen k = ltb 0 (Option.get_or (Map.get k seen) 0)

was_seen-insert :
    (key : String) (n : ℕ) (seen : Map String ℕ) (k : String)
    → was_seen (Map.insert key (n + 1) seen) k ≡ (str_eq key k || was_seen seen k)
was_seen-insert key n seen k = rw (get-insert key k (n + 1) seen) (ground arith)

or_rotate : (a b c : Bool) → (a || b || c) ≡ (b || (a || c))
or_rotate a b c = ground arith

module _ {ℓ} {Item : Type ℓ} {F : Type 0} ⦃fl : Float F⦄ (d : Diversity Item F) where
  abbrev pub penalize : Candidate Item F → Candidate Item F
  penalize c = record c { score = fl.mul c.score d.penalty }

  abbrev pub shares_key : Candidate Item F → Candidate Item F → Bool
  shares_key c x = str_eq (d.key_fn x.item) (d.key_fn c.item)

  -- The candidate at one position, from the map and the candidates before it.
  rescored : Map String ℕ → List (Candidate Item F) → Candidate Item F → Candidate Item F
  rescored seen before c =
      if was_seen seen (d.key_fn c.item) || any (shares_key c) before then penalize c else c

  diversity_loop-at :
      (seen : Map String ℕ) (cs : List (Candidate Item F)) (i : ℕ)
      → get_elem? (diversity_loop d seen cs) i
        ≡ Option.map (rescored seen (take i cs)) (get_elem? cs i)
  unfolding diversity_loop rescored
  diversity_loop-at seen [] i = refl
  diversity_loop-at seen (c ∷ cs) zero = ground arith
  diversity_loop-at seen (c ∷ cs) (suc i) =
      let key = d.key_fn c.item in
      let n = Option.get_or (Map.get key seen) 0 in
      elim (Option-cases (get_elem? cs i)) [
        | inl e ↦ rw (diversity_loop-at (Map.insert key (n + 1) seen) cs i, e) refl
        | inr (x, e) ↦
            rw
              (
                diversity_loop-at (Map.insert key (n + 1) seen) cs i,
                e,
                was_seen-insert key n seen (d.key_fn x.item),
              )
              (ap (λ b. some (if b then penalize x else x))
                (or_rotate (str_eq key (d.key_fn x.item)) (was_seen seen (d.key_fn x.item))
                  (any (shares_key x) (take i cs))))
      ]

  -- The candidate at position `i` keeps its item, source and group; its score is multiplied by the
  -- penalty, once, exactly if a candidate before it has the same key.
  pub diversity-at :
      {Ctx : Type ℓ} (ctx : Ctx) (cs : List (Candidate Item F)) (i : ℕ)
      → get_elem? ((diversity d).score ctx cs) i
        ≡ Option.map
            (λ c. if any (shares_key c) (take i cs) then penalize c else c)
            (get_elem? cs i)
  unfolding diversity rescored Map.get
  diversity-at ctx cs i = diversity_loop-at [] cs i
