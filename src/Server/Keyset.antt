-- ===== src/Server/Keyset.antt =====
-- `paginate` of apps/server/src/mastodon/statuses.rs. A status is any type with an identifier; the
-- check of a header's value is a parameter.
pub mod Continue
use fediway.Prelude.{
  ℕ, Bool, true, false, not, Option, none, some, String, ◌<>◌, List, [], ◌∷◌, take, filter, ◌>>=◌,
  if◌then◌else◌,
}
use mathlib.Core.Option
use fediway.Prelude.Int.{ℤ, leb_ℤ}
use fediway.Prelude.Signed.{codes, parse_i64}

abbrev pub ltb_ℤ : ℤ → ℤ → Bool
ltb_ℤ a b = not (leb_ℤ b a)

-- `s.parse::<i64>().ok()`
unfoldable pub snowflake : String → Option ℤ
unfolding parse_i64
snowflake s = parse_i64 (codes s)

module _ {Status : Type 0} (id : Status → String) where
  -- `is_ok_and`
  abbrev pub id_is : (ℤ → Bool) → Status → Bool
  id_is p s = Option.get_or (Option.map p (snowflake (id s))) false

  -- One `retain` under `if let Some(bound)`: a bound that is no number is no bound.
  unfoldable pub retain_by : (ℤ → ℤ → Bool) → Option ℤ → List Status → List Status
  retain_by p none statuses = statuses
  retain_by p (some bound) statuses = filter (id_is (λ i. p i bound)) statuses

  abbrev final : List Status → Option Status
  final [] = none
  final (s ∷ ss) = some (Option.get_or (final ss) s)

  abbrev initial : List Status → Option Status
  initial [] = none
  initial (s ∷ ss) = some s

  -- The header `Link`, if the page is not empty.
  link : (String → Option String) → String → String → List Status → Option String
  link header_value domain path page = do
    last ← final page
    first ← initial page
    header_value (
        "<https://"
        <> (domain
            <> (path
                <> ("?max_id="
                    <> (id last
                        <> (">; rel=\"next\", <https://"
                            <> (domain
                                <> (path <> ("?min_id=" <> (id first <> ">; rel=\"prev\""))))))))))

  unfoldable pub paginate :
      List Status
      → ℕ
      → Option String
      → Option String
      → Option String
      → (String → Option String)
      → String
      → String
      → List Status × Option String
  unfolding retain_by snowflake link
  paginate statuses limit max_id min_id since_id header_value domain path =
      let below = retain_by ltb_ℤ (max_id >>= snowflake) statuses in
      let above = retain_by (λ i min. ltb_ℤ min i) (min_id >>= snowflake) below in
      let recent = retain_by (λ i since. ltb_ℤ since i) (since_id >>= snowflake) above in
      let page = take limit recent in (page, link header_value domain path page)
