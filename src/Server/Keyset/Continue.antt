-- ===== src/Server/Keyset/Continue.antt =====
-- From one page of `paginate` in apps/server/src/mastodon/statuses.rs to the next.
use mathlib.Core.Path.{subst}
use fediway.Prelude.{
  ℕ, ◌≡◌, refl, ap, sym, ◌∙◌, true, false, not, Option, none, some, String, List, [], ◌∷◌, ◌++◌,
  take, filter, All, arith,
}
use fediway.Prelude.Int.{ℤ, leb_ℤ_self}
use fediway.Server.Keyset.{ltb_ℤ, snowflake, id_is, retain_by, paginate}

some-same : {i j : ℤ} → some i ≡ some j → i ≡ j
some-same h = cc

module _ {Status : Type 0} (id : Status → String) where
  -- The status has a numeric identifier below the given one.
  abbrev pub Below : ℤ → Status → Type 0
  Below i s = (j : ℤ) × (snowflake (id s) ≡ some j) × (ltb_ℤ j i ≡ true)

  -- Numeric identifiers, each above all those that follow.
  abbrev pub Descending : List Status → Type 0
  Descending [] = Unit
  Descending (s ∷ ss) = ((i : ℤ) × (snowflake (id s) ≡ some i) × All (Below i) ss) × Descending ss

  filter-Below :
      (i : ℤ) (ss : List Status) → All (Below i) ss → filter (id_is id (λ j. ltb_ℤ j i)) ss ≡ ss
  filter-Below i [] h = refl
  filter-Below i (s ∷ ss) ((j, e, l), h) = rw (e, l, filter-Below i ss h) refl

  Below-at :
      (j : ℤ) (before : List Status) (s : Status) (after : List Status)
      → All (Below j) (before ++ s ∷ after)
      → Below j s
  Below-at j [] s after h = h.0
  Below-at j (b ∷ bs) s after h = Below-at j bs s after h.1

  Descending-at :
      (before : List Status) (s : Status) (after : List Status)
      → Descending (before ++ s ∷ after)
      → (i : ℤ) × (snowflake (id s) ≡ some i)
  Descending-at [] s after ((i, e, _), _) = (i, e)
  Descending-at (b ∷ bs) s after (_, d) = Descending-at bs s after d

  not_below : (i j : ℤ) → ltb_ℤ i j ≡ true → ltb_ℤ j i ≡ false
  not_below i j h = ground arith

  not_below_self : (i : ℤ) → ltb_ℤ i i ≡ false
  not_below_self i = ap not (leb_ℤ_self i)

  filter-after :
      (i : ℤ) (before : List Status) (s : Status) (after : List Status)
      → snowflake (id s) ≡ some i
      → Descending (before ++ s ∷ after)
      → filter (id_is id (λ j. ltb_ℤ j i)) (before ++ s ∷ after) ≡ after
  filter-after i [] s after e ((j, k, h), _) =
      let same : j ≡ i = some-same (sym k ∙ e) in
      let below = subst (λ x. All (Below x) after) same h in
      rw (e, not_below_self i, filter-Below i after below) refl
  filter-after i (b ∷ bs) s after e ((j, k, h), d) =
      let (x, f, l) = Below-at j bs s after h in
      let lower : ltb_ℤ i j ≡ true = subst (λ y. ltb_ℤ y j ≡ true) (some-same (sym f ∙ e)) l in
      rw (k, not_below i j lower) (filter-after i bs s after e d)

  -- Over statuses in the descending order of their numeric identifiers the page after a status, by
  -- its identifier as `max_id`, begins with the status that follows it: none is shown twice or left out.
  pub paginate-max_id :
      (before : List Status) (s : Status) (after : List Status) (limit : ℕ)
      (header_value : String → Option String) (domain path : String)
      → Descending (before ++ s ∷ after)
      → (paginate id (before ++ s ∷ after) limit (some (id s)) none none header_value domain path).0
        ≡ take limit after
  unfolding paginate retain_by
  paginate-max_id before s after limit header_value domain path d =
      let (i, e) = Descending-at before s after d in
      rw e (ap (take limit) (filter-after i before s after e d))
