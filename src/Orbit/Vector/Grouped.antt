-- ===== src/Orbit/Vector/Grouped.antt =====
-- What `process_engagements` of workers/orbit/src/vector.rs writes for each account.
use mathlib.Core.Path.{subst}
use mathlib.Core.Option
use fediway.Prelude.{
  any, is_some, ◌||◌, ℕ, ◌≡◌, refl, ap, sym, ◌∙◌, Bool, true, false, Option, none, some, String,
  List, [], ◌∷◌, ◌++◌, append_assoc, append-nil, map, filter, foldl, ◌>>=◌, Bool-cases, inl, inr,
  arith, if◌then◌else◌,
}
use fediway.Prelude.Float.{Float}
use fediway.Prelude.Int.{ℤ}
use fediway.Prelude.Map
use fediway.Prelude.Map.{Eq, Map, String_eq, ℤ_eq, eq_ℤ, eq_ℤ_iff, get-insert}
use fediway.Orbit.Vector.{
  RawEngagement, UserState, push, by_account, process_account, upserts, process_engagements,
  EngagementKind, learn, ema_update, weight, increment, fresh,
}

-- No key stands twice.
abbrev Distinct : {V : Type 0} → Map ℤ V → Type 0
Distinct [] = Unit
Distinct ((k, v) ∷ m) = (Map.get k m ≡ none) × Distinct m

Distinct-insert :
    {V : Type 0} (k : ℤ) (v : V) (m : Map ℤ V) → Distinct m → Distinct (Map.insert k v m)
unfolding Map.insert Map.get
Distinct-insert k v [] d = (refl, tt)
Distinct-insert k v ((j, w) ∷ m) d = elim (Bool-cases (eq_ℤ j k)) [
  | inl e ↦
      let same : j ≡ k = (eq_ℤ_iff j k).0 e in rw e (subst (λ i. Map.get i m ≡ none) same d.0, d.1)
  | inr e ↦
      let other : eq_ℤ k j ≡ false = ground (arith, eq_ℤ_iff j k, eq_ℤ_iff k j) in
      rw e (
        get-insert k j v m ∙ ap (λ b. if b then some v else Map.get j m) other ∙ d.0,
        Distinct-insert k v m d.1,
      )
]

module _ {Target : Type 0} where
  abbrev pub is_of : ℤ → RawEngagement Target → Bool
  is_of account e = eq_ℤ e.account_id account

  Distinct-foldl :
      (m : Map ℤ (List (RawEngagement Target))) (es : List (RawEngagement Target))
      → Distinct m
      → Distinct (foldl push m es)
  unfolding push
  Distinct-foldl m [] d = d
  Distinct-foldl m (e ∷ es) d =
      Distinct-foldl (push m e) es
        (Distinct-insert e.account_id (Option.get_or (Map.get e.account_id m) [] ++ e ∷ []) m d)

  abbrev group_of : ℤ → Map ℤ (List (RawEngagement Target)) → List (RawEngagement Target)
  group_of account m = Option.get_or (Map.get account m) []

  group_of-push :
      (account : ℤ) (m : Map ℤ (List (RawEngagement Target))) (e : RawEngagement Target)
      → group_of account (push m e)
        ≡ (if is_of account e then group_of account m ++ e ∷ [] else group_of account m)
  unfolding push
  group_of-push account m e = elim (Bool-cases (is_of account e)) [
    | inl h ↦
        let same : e.account_id ≡ account = (eq_ℤ_iff e.account_id account).0 h in
        ap (λ o. Option.get_or o []) (get-insert e.account_id account _ m)
        ∙ rw h (ap (λ a. group_of a m ++ e ∷ []) same)
    | inr h ↦ ap (λ o. Option.get_or o []) (get-insert e.account_id account _ m) ∙ rw h refl
  ]

  group_of-foldl :
      (account : ℤ) (m : Map ℤ (List (RawEngagement Target))) (es : List (RawEngagement Target))
      → group_of account (foldl push m es) ≡ group_of account m ++ filter (is_of account) es
  group_of-foldl account m [] = sym (append-nil (group_of account m))
  group_of-foldl account m (e ∷ es) = elim (Bool-cases (is_of account e)) [
    | inl h ↦ rw h (
        group_of-foldl account (push m e) es
        ∙ ap (λ g. g ++ filter (is_of account) es) (group_of-push account m e ∙ rw h refl)
        ∙ append_assoc (group_of account m) (e ∷ []) (filter (is_of account) es))
    | inr h ↦ rw h (
        group_of-foldl account (push m e) es
        ∙ ap (λ g. g ++ filter (is_of account) es) (group_of-push account m e ∙ rw h refl))
  ]

some-same {ℓ} : {A : Type ℓ} {a b : A} → some a ≡ some b → a ≡ b
some-same h = cc

get-written :
    {V : Type 0} (k account : ℤ) (v : V) (m : Map ℤ V) (written : Bool)
    → eq_ℤ k account ≡ true
    → Map.get account m ≡ none
    → Map.get account (if written then (k, v) ∷ m else m) ≡ (if written then some v else none)
unfolding Map.get
get-written k account v m true e h = rw e refl
get-written k account v m false e h = h

get-skipped :
    {V : Type 0} (k account : ℤ) (v : V) (m : Map ℤ V) (written : Bool)
    → eq_ℤ k account ≡ false
    → Map.get account (if written then (k, v) ∷ m else m) ≡ Map.get account m
unfolding Map.get
get-skipped k account v m true e = rw e refl
get-skipped k account v m false e = refl

module _ {F Target : Type 0} ⦃fl : Float F⦄ (render : Target → String)
    (embeddings : Map String (List F)) (alpha : F) (dims : ℕ) where
  abbrev embedding_of : RawEngagement Target → Option (List F)
  embedding_of e = Map.get (render e.target) embeddings

  -- What one engagement makes of the state: nothing without an embedding, else a step of the moving
  -- average and one more engagement.
  abbrev moved : UserState F → EngagementKind → Option (List F) → UserState F
  moved state kind none = state
  moved state kind (some embedding) = record {
    vector = ema_update state.vector embedding alpha (weight kind);
    engagement_count = increment state.engagement_count;
  }

  abbrev is_known : RawEngagement Target → Bool
  is_known e = is_some (embedding_of e)

  -- What is written for an account with these engagements: nothing if none of them has an embedding,
  -- else what they make of the stored state, or of a new one, one after the other.
  abbrev pub outcome : Map ℤ (UserState F) → ℤ → List (RawEngagement Target) → Option (UserState F)
  outcome states account es =
      if any is_known es
      then some (
          foldl (λ state e. moved state e.kind (embedding_of e))
            (Option.get_or (Map.get account states) (fresh render embeddings alpha dims)) es)
      else none

  abbrev learned : UserState F → Bool → EngagementKind → Option (List F) → UserState F × Bool
  learned state changed kind none = (state, changed)
  learned state changed kind (some embedding) = (moved state kind (some embedding), true)

  learn-learned :
      (state : UserState F) (changed : Bool) (e : RawEngagement Target)
      → learn render embeddings alpha dims (state, changed) e
        ≡ learned state changed e.kind (embedding_of e)
  unfolding learn ema_update weight
  learn-learned state changed e = refl

  learned-moved :
      (state : UserState F) (changed : Bool) (kind : EngagementKind) (found : Option (List F))
      → learned state changed kind found ≡ (moved state kind found, changed || is_some found)
  learned-moved state changed kind none = ap (λ b. (state, b)) (ground arith)
  learned-moved state changed kind (some v) =
      ap (λ b. (moved state kind (some v), b)) (ground arith)

  foldl-learn :
      (state : UserState F) (changed : Bool) (es : List (RawEngagement Target))
      → foldl (learn render embeddings alpha dims) (state, changed) es
        ≡ (foldl (λ s e. moved s e.kind (embedding_of e)) state es, changed || any is_known es)
  foldl-learn state changed [] = ap (λ b. (state, b)) (ground arith)
  foldl-learn state changed (e ∷ es) =
      ap (λ p. foldl (learn render embeddings alpha dims) p es)
        (learn-learned state changed e ∙ learned-moved state changed e.kind (embedding_of e))
      ∙ foldl-learn (moved state e.kind (embedding_of e)) (changed || is_known e) es
      ∙ ap
          (λ b. (
            foldl (λ s x. moved s x.kind (embedding_of x)) (moved state e.kind (embedding_of e)) es,
            b,
          ))
          (ground arith)

  -- What the loop over one account yields is written if it has changed.
  process_account-outcome :
      (states : Map ℤ (UserState F)) (account : ℤ) (es : List (RawEngagement Target))
      → (let (state, changed) = process_account render embeddings alpha dims states account es in
          if changed then some state else none)
        ≡ outcome states account es
  unfolding process_account
  process_account-outcome states account es =
      ap (λ (p : UserState F × Bool). if p.1 then some p.0 else none)
        (foldl-learn (Option.get_or (Map.get account states) (fresh render embeddings alpha dims))
          false es)

  get-upserts :
      (states : Map ℤ (UserState F)) (account : ℤ) (groups : Map ℤ (List (RawEngagement Target)))
      → Distinct groups
      → Map.get account (upserts render embeddings alpha dims states groups)
        ≡ (Map.get account groups >>= outcome states account)
  unfolding upserts Map.get
  get-upserts states account [] d = refl
  get-upserts states account ((k, es) ∷ groups) d =
      let below = get-upserts states account groups d.1 in
      let (state, changed) = process_account render embeddings alpha dims states k es in
      let ups = upserts render embeddings alpha dims states groups in
      elim (Bool-cases (eq_ℤ k account)) [
        | inl e ↦
            let same : k ≡ account = (eq_ℤ_iff k account).0 e in
            let absent =
              below
              ∙ ap (λ o. o >>= outcome states account)
                  (subst (λ i. Map.get i groups ≡ none) same d.0) in
            get-written k account state ups changed e absent
            ∙ process_account-outcome states k es
            ∙ ap (λ a. outcome states a es) same
            ∙ ap (λ b. (if b then some es else Map.get account groups) >>= outcome states account)
                (sym e)
        | inr e ↦
            get-skipped k account state ups changed e
            ∙ below
            ∙ ap (λ b. (if b then some es else Map.get account groups) >>= outcome states account)
                (sym e)
      ]

  outcome-group :
      (states : Map ℤ (UserState F)) (account : ℤ) (group : Option (List (RawEngagement Target)))
      → (group >>= outcome states account) ≡ outcome states account (Option.get_or group [])
  outcome-group states account none = refl
  outcome-group states account (some es) = refl

  -- Whatever the order of the map of accounts is, what is written for an account is what its own
  -- engagements give in the order in which they were polled, from its stored state or from a new one:
  -- each that has an embedding moves the vector by a step of the average and counts, the others do
  -- nothing, and nothing is written if none of them has an embedding.
  pub get-process_engagements :
      (load : List ℤ → Option (Map ℤ (UserState F))) (states : Map ℤ (UserState F))
      (es : List (RawEngagement Target)) (written : Map ℤ (UserState F)) (account : ℤ)
      → load (map (λ g. g.0) (by_account es)) ≡ some states
      → process_engagements render embeddings alpha dims load es ≡ some written
      → Map.get account written ≡ outcome states account (filter (is_of account) es)
  unfolding process_engagements by_account Map.get
  get-process_engagements load states es written account l h =
      let groups = by_account es in
      let same : upserts render embeddings alpha dims states groups ≡ written = some-same (
        ap (λ o. o >>= λ found. some (upserts render embeddings alpha dims found groups)) (sym l)
        ∙ h) in
      ap (Map.get account) (sym same)
      ∙ get-upserts states account groups (Distinct-foldl [] es tt)
      ∙ outcome-group states account (Map.get account groups)
      ∙ ap (outcome states account) (group_of-foldl account [] es)
