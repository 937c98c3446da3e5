-- ===== src/Orbit/Vector.antt =====
-- workers/orbit/src/vector.rs and workers/orbit/src/engagement.rs. The rendering of a post, the
-- vectors that the database holds, and its failure are arguments; the vectors to write are the result,
-- and a write that fails is only logged. Metrics are left out.
pub mod Grouped
use fediway.Prelude.{
  ℕ, zero, suc, ◌+◌, ◌-◌, ◌^◌, ◌==◌, Bool, true, false, Option, none, some, String, List, [], ◌∷◌,
  ◌++◌, map, foldl, ◌>>=◌, if◌then◌else◌,
}
use mathlib.Core.Option
use fediway.Prelude.Float.{Float, flt}
use fediway.Prelude.Int.{ℤ, pos, negsuc}
use fediway.Prelude.Map
use fediway.Prelude.Map.{Map, ℤ_eq, String_eq}
use fediway.Common.Types.{DateTime}

pub data EngagementKind : Type 0 where
  like : EngagementKind
  repost : EngagementKind
  reply : EngagementKind
  bookmark : EngagementKind

-- `RawEngagement`, over any type of target posts.
pub record RawEngagement (Target : Type 0) : Type 0 where
  pub id : ℤ
  pub account_id : ℤ
  pub created_at : DateTime
  pub kind : EngagementKind
  pub target : Target

pub record UserState (F : Type 0) : Type 0 where
  pub vector : List F
  pub engagement_count : ℤ

-- `+= 1` on an `i64`, which wraps around.
abbrev pub increment : ℤ → ℤ
increment (pos n) = if n == 2 ^ 63 - 1 then negsuc (2 ^ 63 - 1) else pos (suc n)
increment (negsuc zero) = pos 0
increment (negsuc (suc n)) = negsuc n

zip_with : {A B C : Type 0} → (A → B → C) → List A → List B → List C
zip_with f [] bs = []
zip_with f (a ∷ rest) [] = []
zip_with f (a ∷ rest) (b ∷ bs) = f a b ∷ zip_with f rest bs

pub replicate : {A : Type 0} → ℕ → A → List A
replicate zero a = []
replicate (suc n) a = a ∷ replicate n a

module _ {Target : Type 0} where
  -- `by_account.entry(…).or_default().push(…)`
  unfoldable pub push :
      Map ℤ (List (RawEngagement Target))
      → RawEngagement Target
      → Map ℤ (List (RawEngagement Target))
  push m e = Map.insert e.account_id (Option.get_or (Map.get e.account_id m) [] ++ e ∷ []) m

  unfoldable pub by_account : List (RawEngagement Target) → Map ℤ (List (RawEngagement Target))
  unfolding push
  by_account engagements = foldl push [] engagements

module _ {F : Type 0} ⦃fl : Float F⦄ where
  unfoldable pub weight : EngagementKind → F
  weight like = fl.of_nat 1
  weight repost = fl.div (fl.of_nat 15) (fl.of_nat 10)
  weight reply = fl.of_nat 3
  weight bookmark = fl.of_nat 2

  unfoldable pub normalize : List F → List F
  normalize v =
      let norm = fl.sqrt (foldl fl.add fl.zero (map (λ x. fl.mul x x) v)) in
      if flt norm fl.epsilon then v else map (λ x. fl.div x norm) v

  unfoldable pub ema_update : List F → List F → F → F → List F
  unfolding normalize zip_with
  ema_update current embedding alpha w =
      let aw = fl.mul alpha w in
      let decay = fl.sub (fl.of_nat 1) alpha in
      normalize (zip_with (λ c e. fl.mul_add aw e (fl.mul decay c)) current embedding)

  module _ {Target : Type 0} (render : Target → String) (embeddings : Map String (List F))
      (alpha : F) (dims : ℕ) where
    -- The body of the inner loop, on the state and on `changed`.
    unfoldable pub learn : UserState F × Bool → RawEngagement Target → UserState F × Bool
    unfolding ema_update weight
    learn (state, changed) e = elim (Map.get (render e.target) embeddings) [
      | none ↦ (state, changed)
      | some embedding ↦ (
        record {
          vector = ema_update state.vector embedding alpha (weight e.kind);
          engagement_count = increment state.engagement_count;
        },
        true,
      )
    ]

    abbrev pub fresh : UserState F
    fresh = record { vector = replicate dims fl.zero; engagement_count = pos 0 }

    -- The inner loop for one account.
    unfoldable pub process_account :
        Map ℤ (UserState F) → ℤ → List (RawEngagement Target) → UserState F × Bool
    unfolding learn replicate
    process_account states account es =
        foldl learn (Option.get_or (Map.get account states) fresh, false) es

    -- The vectors that are written, in the order of the map of accounts.
    unfoldable pub upserts :
        Map ℤ (UserState F) → Map ℤ (List (RawEngagement Target)) → Map ℤ (UserState F)
    unfolding process_account
    upserts states [] = []
    upserts states ((account, es) ∷ groups) =
        let rest = upserts states groups in
        let (state, changed) = process_account states account es in
        if changed then (account, state) ∷ rest else rest

    unfoldable pub process_engagements :
        (List ℤ → Option (Map ℤ (UserState F)))
        → List (RawEngagement Target)
        → Option (Map ℤ (UserState F))
    unfolding upserts by_account
    process_engagements load engagements = do
      let groups = by_account engagements
      states ← load (map (λ g. g.0) groups)
      some (upserts states groups)
