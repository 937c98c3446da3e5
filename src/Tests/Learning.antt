-- ===== src/Tests/Learning.antt =====
-- The worker on a few engagements.
use fediway.Prelude.{ℕ, ◌≡◌, refl, Option, some, String, List, [], ◌∷◌, filter, map}
use fediway.Prelude.Int.{ℤ, pos}
use fediway.Prelude.Map
use fediway.Prelude.Map.{Map, ℤ_eq}
use fediway.Orbit.Vector.{
  RawEngagement, UserState, EngagementKind, like, reply, by_account, process_engagements,
}
use fediway.Orbit.Vector.Grouped.{is_of, outcome, get-process_engagements}
use fediway.Tests.Scores.{hundredths}

program : Unit {0}
unfolding process_engagements Map.get Map.insert
program = tt

-- A target is its own rendering.
abbrev same : String → String
same s = s

abbrev engagement : ℤ → EngagementKind → String → RawEngagement String
engagement account kind target = record {
  id = pos 1;
  account_id = account;
  created_at = pos 0;
  kind = kind;
  target = target;
}

abbrev embeddings : Map String (List ℕ)
embeddings = ("cats", 100 ∷ 0 ∷ []) ∷ ("dogs", 0 ∷ 100 ∷ []) ∷ []

abbrev polled : List (RawEngagement String)
polled =
    engagement (pos 1) like "cats"
    ∷ engagement (pos 2) like "birds"
    ∷ engagement (pos 1) reply "dogs"
    ∷ []

abbrev stored : Map ℤ (UserState ℕ)
stored = (pos 1, record { vector = 50 ∷ 50 ∷ []; engagement_count = pos 7 }) ∷ []

abbrev run : Option (Map ℤ (UserState ℕ))
run = process_engagements same embeddings 5 2 (λ _. some stored) polled

accounts_run : (map (λ g. g.0) (by_account polled) ≡ pos 1 ∷ pos 2 ∷ [])
unfolding program by_account
accounts_run = refl

written : (w : Map ℤ (UserState ℕ)) × (run ≡ some w)
unfolding program
written = (_, refl)

-- Account 1 learned twice, and account 2 is not written.
written_run : map {B = ℤ × ℤ} (λ u. (u.0, u.1.engagement_count)) written.0 ≡ (pos 1, pos 9) ∷ []
unfolding program written
written_run = refl

get-process_engagements_example :
    Map.get (pos 1) written.0
    ≡ outcome same embeddings 5 2 stored (pos 1) (filter (is_of (pos 1)) polled)
get-process_engagements_example =
    get-process_engagements same embeddings 5 2 (λ _. some stored) stored polled written.0 (pos 1)
      refl written.1
