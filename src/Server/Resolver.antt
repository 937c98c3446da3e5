-- ===== src/Server/Resolver.antt =====
-- apps/server/src/mastodon/resolve.rs for one caller at a time: the lookup, the search and what it
-- makes of every answer. The database and the search of the Mastodon instance are parameters. The
-- sharing of a search between callers is in the module Flights.
pub mod Errors
pub mod Mapping
pub mod Flights
use fediway.Prelude.{
  ℕ, Bool, true, false, ◌&&◌, ◌==◌, Option, none, some, String, str_eq, List, [], ◌∷◌, leb, ltb,
  ◌>>=◌, if◌then◌else◌,
}
use fediway.Prelude.Int.{ℤ}
use fediway.Prelude.Result.{Result, ok, err}
use fediway.Prelude.Signed.{codes, parse_i64, parse_u64}

-- Statuses are their codes, durations their seconds.
pub data ResolveError : Type 0 where
  unreachable : ResolveError
  not_found : ResolveError
  unresolvable : ResolveError
  blocked : ResolveError
  forbidden : ResolveError
  rate_limited : Option ℕ → ResolveError
  upstream : ℕ → ResolveError
  db : ResolveError

unfoldable pub metric_outcome : ResolveError → String
metric_outcome unreachable = "unreachable"
metric_outcome not_found = "not_found"
metric_outcome unresolvable = "unresolvable"
metric_outcome blocked = "blocked"
metric_outcome forbidden = "forbidden"
metric_outcome (rate_limited _) = "rate_limited"
metric_outcome (upstream _) = "upstream"
metric_outcome db = "db"

-- What the resolver reads of a row of `commonfeed_statuses`.
pub record Row : Type 0 where
  pub mastodon_local_id : Option ℤ
  pub post_uri : String

-- The answer of the search: a failed request, or a status with the header `Retry-After` (as text, if
-- it is one) and the identifiers in the body, `none` where the body is not readable.
pub data Answer : Type 0 where
  no_answer : Answer
  answer : ℕ → Option String → Option (List String) → Answer

-- The database and the Mastodon instance. `none` is a query that failed.
pub record Upstream (W : Type 0) : Type 0 where
  pub find_by_id : ℤ → W → Option (Option Row)
  pub search : String → W → Answer × W
  pub set_mastodon_local_id : ℤ → ℤ → W → Bool × W

abbrev bad_gateway : ℕ
bad_gateway = 502

-- `StatusCode::is_success`
abbrev pub is_success : ℕ → Bool
is_success status = leb 200 status && ltb status 300

-- The error of an answer that is no success. A code outside the range of `StatusCode` cannot occur.
unfoldable pub refusal : ℕ → Option String → ResolveError
unfolding parse_u64
refusal status retry_after =
    if status == 401
    then forbidden
    else if status == 403
    then forbidden
    else if status == 422
    then blocked
    else if status == 429
    then rate_limited (retry_after >>= λ s. parse_u64 (codes s))
    else upstream status

module _ {W : Type 0} (u : Upstream W) where
  -- From the identifier of the first status on: it is parsed and stored.
  unfoldable pub store : ℤ → Option ℤ → W → Result ℤ ResolveError × W
  store snowflake none w = (err (upstream bad_gateway), w)
  store snowflake (some local_id) w =
      let (stored, after) = u.set_mastodon_local_id snowflake local_id w in
      (if stored then ok local_id else err db, after)

  -- From the body on: its first status counts.
  unfoldable pub first_match : ℤ → Option (List String) → W → Result ℤ ResolveError × W
  unfolding store parse_i64
  first_match snowflake none w = (err (upstream bad_gateway), w)
  first_match snowflake (some []) w = (err unresolvable, w)
  first_match snowflake (some (id ∷ ids)) w = store snowflake (parse_i64 (codes id)) w

  unfoldable pub read_answer : ℤ → Answer × W → Result ℤ ResolveError × W
  unfolding first_match refusal
  read_answer snowflake (no_answer, w) = (err unreachable, w)
  read_answer snowflake (answer status retry_after body, w) =
      if is_success status
      then first_match snowflake body w
      else (err (refusal status retry_after), w)

  -- From the identifier and the URI of the row on.
  unfoldable pub search_uri : ℤ → Option ℤ → String → W → Result ℤ ResolveError × W
  unfolding read_answer
  search_uri snowflake (some id) post_uri w = (ok id, w)
  search_uri snowflake none post_uri w =
      if str_eq post_uri "" then (err not_found, w) else read_answer snowflake (u.search post_uri w)

  -- From the row on.
  unfoldable pub search_row : ℤ → Option (Option Row) → W → Result ℤ ResolveError × W
  unfolding search_uri
  search_row snowflake none w = (err db, w)
  search_row snowflake (some none) w = (err not_found, w)
  search_row snowflake (some (some row)) w =
      search_uri snowflake row.mastodon_local_id row.post_uri w

  -- `drive_search`; the base URL of the Mastodon instance may not be configured.
  unfoldable pub drive_search : Bool → ℤ → W → Result ℤ ResolveError × W
  unfolding search_row
  drive_search false snowflake w = (err unreachable, w)
  drive_search true snowflake w = search_row snowflake (u.find_by_id snowflake w) w

  -- A known identifier is the answer; without one the search follows.
  unfoldable pub or_search : Bool → ℤ → Option ℤ → W → Result ℤ ResolveError × W
  unfolding drive_search
  or_search has_base snowflake (some id) w = (ok id, w)
  or_search has_base snowflake none w = drive_search has_base snowflake w

  -- The first lookup of `resolve`.
  unfoldable pub lookup_then : Bool → ℤ → Option (Option Row) → W → Result ℤ ResolveError × W
  unfolding or_search
  lookup_then has_base snowflake none w = (err db, w)
  lookup_then has_base snowflake (some none) w = (err not_found, w)
  lookup_then has_base snowflake (some (some row)) w =
      or_search has_base snowflake row.mastodon_local_id w

  unfoldable pub resolve : Bool → ℤ → W → Result ℤ ResolveError × W
  unfolding lookup_then
  resolve has_base snowflake w = lookup_then has_base snowflake (u.find_by_id snowflake w) w
