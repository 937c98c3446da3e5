-- ===== src/Server/Api/Errors/Status.antt =====
-- The statuses that the client sees of the resolver's errors: apps/server/src/routes/mastodon/error.rs
-- after apps/server/src/mastodon/resolve.rs.
use fediway.Prelude.{
  ℕ, ◌≡◌, refl, Bool, true, false, ◌==◌, Option, none, some, String, str_eq, List, [], ◌∷◌,
  Bool-cases, inl, inr, if◌then◌else◌,
}
use mathlib.Core.Path.{subst}
use fediway.Prelude.Int.{ℤ}
use fediway.Prelude.Result.{Result, ok, err}
use fediway.Prelude.Signed.{codes, parse_i64}
use fediway.Server.Resolver.{
  ResolveError, not_found, db, Row, Answer, no_answer, answer, Upstream, is_success, refusal, store,
  first_match, read_answer, search_uri, search_row, or_search, lookup_then, resolve,
}
use fediway.Server.Resolver
use fediway.Server.Api.Errors
use fediway.Server.Api.Errors.{from_resolve, into_response}

-- The client sees a failure.
Fails : ResolveError → Type 0
Fails e = is_success (into_response {Body = Unit {0}} (from_resolve e)).status ≡ false

refusal-Fails :
    (status : ℕ) (retry_after : Option String)
    → is_success status ≡ false
    → Fails (refusal status retry_after)
unfolding Fails refusal from_resolve into_response
refusal-Fails status retry_after h = elim (Bool-cases (status == 401)) [
  | inl a ↦ rw a refl
  | inr a ↦ elim (Bool-cases (status == 403)) [
    | inl b ↦ rw (a, b) refl
    | inr b ↦ elim (Bool-cases (status == 422)) [
      | inl c ↦ rw (a, b, c) refl
      | inr c ↦ elim (Bool-cases (status == 429)) [
        | inl d ↦ rw (a, b, c, d) refl
        | inr d ↦ rw (a, b, c, d) h
      ]
    ]
  ]
]

module _ {W : Type 0} (u : Upstream W) where
  AllFail : Result ℤ ResolveError × W → Type 0
  AllFail r = (e : ResolveError) → r.0 ≡ err e → Fails e

  at_once : (x : ResolveError) (w : W) → Fails x → AllFail (err x, w)
  unfolding AllFail
  at_once x w f e h = let same : x ≡ e = cc in subst Fails same f

  never : (id : ℤ) (w : W) → AllFail (ok id, w)
  unfolding AllFail
  never id w e h = cc

  stored : (kept : Bool) (id : ℤ) (w : W) → AllFail (if kept then ok id else err db, w)
  unfolding Fails from_resolve into_response
  stored true id w = never id w
  stored false id w = at_once db w refl

  store-AllFail : (snowflake : ℤ) (id : Option ℤ) (w : W) → AllFail (store u snowflake id w)
  unfolding store Fails from_resolve into_response
  store-AllFail snowflake none w = at_once (ResolveError.upstream 502) w refl
  store-AllFail snowflake (some id) w = stored (u.set_mastodon_local_id snowflake id w).0 id _

  first_match-AllFail :
      (snowflake : ℤ) (body : Option (List String)) (w : W)
      → AllFail (first_match u snowflake body w)
  unfolding first_match Fails from_resolve into_response
  first_match-AllFail snowflake none w = at_once (ResolveError.upstream 502) w refl
  first_match-AllFail snowflake (some []) w = at_once ResolveError.unresolvable w refl
  first_match-AllFail snowflake (some (id ∷ ids)) w =
      store-AllFail snowflake (parse_i64 (codes id)) w

  answered :
      (status : ℕ) (retry_after : Option String) (success : Bool) (r : Result ℤ ResolveError × W)
      (w : W)
      → is_success status ≡ success
      → AllFail r
      → AllFail (if success then r else (err (refusal status retry_after), w))
  answered status retry_after true r w h k = k
  answered status retry_after false r w h k =
      at_once (refusal status retry_after) w (refusal-Fails status retry_after h)

  read_answer-AllFail : (snowflake : ℤ) (a : Answer × W) → AllFail (read_answer u snowflake a)
  unfolding read_answer Fails from_resolve into_response
  read_answer-AllFail snowflake (no_answer, w) = at_once ResolveError.unreachable w refl
  read_answer-AllFail snowflake (answer status retry_after body, w) =
      answered status retry_after (is_success status) _ w refl
        (first_match-AllFail snowflake body w)

  search_uri-AllFail :
      (snowflake : ℤ) (id : Option ℤ) (uri : String) (w : W)
      → AllFail (search_uri u snowflake id uri w)
  unfolding search_uri Fails from_resolve into_response
  search_uri-AllFail snowflake (some id) uri w = never id w
  search_uri-AllFail snowflake none uri w = elim (Bool-cases (str_eq uri "")) [
    | inl e ↦ rw e (at_once not_found w refl)
    | inr e ↦ rw e (read_answer-AllFail snowflake (u.search uri w))
  ]

  search_row-AllFail :
      (snowflake : ℤ) (found : Option (Option Row)) (w : W)
      → AllFail (search_row u snowflake found w)
  unfolding search_row Fails from_resolve into_response
  search_row-AllFail snowflake none w = at_once db w refl
  search_row-AllFail snowflake (some none) w = at_once not_found w refl
  search_row-AllFail snowflake (some (some row)) w =
      search_uri-AllFail snowflake row.mastodon_local_id row.post_uri w

  or_search-AllFail :
      (has_base : Bool) (snowflake : ℤ) (id : Option ℤ) (w : W)
      → AllFail (or_search u has_base snowflake id w)
  unfolding or_search Fails from_resolve into_response
  or_search-AllFail has_base snowflake (some id) w = never id w
  or_search-AllFail false snowflake none w = at_once ResolveError.unreachable w refl
  or_search-AllFail true snowflake none w =
      search_row-AllFail snowflake (u.find_by_id snowflake w) w

  lookup-AllFail :
      (has_base : Bool) (snowflake : ℤ) (found : Option (Option Row)) (w : W)
      → AllFail (lookup_then u has_base snowflake found w)
  unfolding lookup_then Fails from_resolve into_response
  lookup-AllFail has_base snowflake none w = at_once db w refl
  lookup-AllFail has_base snowflake (some none) w = at_once not_found w refl
  lookup-AllFail has_base snowflake (some (some row)) w =
      or_search-AllFail has_base snowflake row.mastodon_local_id w

  -- Where the resolver fails the client is never told of a success: whatever the Mastodon instance
  -- and the database answered, the status of the error's response is outside of 200 to 299.
  into_response-resolve :
      (has_base : Bool) (snowflake : ℤ) (w : W) (e : ResolveError)
      → (resolve u has_base snowflake w).0 ≡ err e
      → is_success (into_response {Body = Unit {0}} (from_resolve e)).status ≡ false
  unfolding resolve AllFail Fails
  into_response-resolve has_base snowflake w =
      lookup-AllFail has_base snowflake (u.find_by_id snowflake w) w

-- An action that fails in the resolver is counted under the same name as the failed resolution.
metric_outcome-from_resolve :
    (e : ResolveError) → Errors.metric_outcome (from_resolve e) ≡ Resolver.metric_outcome e
unfolding Errors.metric_outcome Resolver.metric_outcome from_resolve
metric_outcome-from_resolve ResolveError.unreachable = refl
metric_outcome-from_resolve ResolveError.not_found = refl
metric_outcome-from_resolve ResolveError.unresolvable = refl
metric_outcome-from_resolve ResolveError.blocked = refl
metric_outcome-from_resolve ResolveError.forbidden = refl
metric_outcome-from_resolve (ResolveError.rate_limited _) = refl
metric_outcome-from_resolve (ResolveError.upstream _) = refl
metric_outcome-from_resolve ResolveError.db = refl
