-- ===== src/Server/Resolver/Errors.antt =====
-- When apps/server/src/mastodon/resolve.rs says that a snowflake is not found, on which its callers
-- forward the identifier to Mastodon unchanged.
use fediway.Prelude.{
  ℕ, ◌==◌, ◌≡◌, ◌≢◌, ◌⊎◌, inl, inr, refl, Bool, true, false, Option, none, some, String, str_eq,
  str_eq_iff, List, [], ◌∷◌, Bool-cases, if◌then◌else◌,
}
use fediway.Prelude.Int.{ℤ}
use fediway.Prelude.Result.{Result, ok, err}
use fediway.Prelude.Signed.{codes, parse_i64}
use fediway.Server.Resolver.{
  ResolveError, not_found, Row, Answer, no_answer, answer, Upstream, is_success, refusal, store,
  first_match, read_answer, search_uri, search_row, or_search, lookup_then, resolve,
}

if-ne {ℓ} : {A : Type ℓ} (b : Bool) {x y z : A} → x ≢ z → y ≢ z → (if b then x else y) ≢ z
if-ne true h k = h
if-ne false h k = k

refusal-ne-not_found :
    (status : ℕ) (retry_after : Option String) → refusal status retry_after ≢ not_found
unfolding refusal
refusal-ne-not_found status retry_after =
    if-ne (status == 401) (λ h. cc)
      (if-ne (status == 403) (λ h. cc)
        (if-ne (status == 422) (λ h. cc) (if-ne (status == 429) (λ h. cc) (λ h. cc))))

module _ {W : Type 0} (u : Upstream W) where
  abbrev Found : Result ℤ ResolveError × W → Type 0
  Found r = r.0 ≢ err not_found

  stored-Found :
      (stored : Bool) (id : ℤ)
      → ◌≢◌ {A = Result ℤ ResolveError}
          (if stored then ok id else err ResolveError.db)
          (err not_found)
  stored-Found true id h = cc
  stored-Found false id h = cc

  store-Found : (snowflake : ℤ) (local_id : Option ℤ) (w : W) → Found (store u snowflake local_id w)
  unfolding store
  store-Found snowflake none w h = cc
  store-Found snowflake (some local_id) w h =
      stored-Found (u.set_mastodon_local_id snowflake local_id w).0 local_id h

  first_match-Found :
      (snowflake : ℤ) (body : Option (List String)) (w : W) → Found (first_match u snowflake body w)
  unfolding first_match
  first_match-Found snowflake none w h = cc
  first_match-Found snowflake (some []) w h = cc
  first_match-Found snowflake (some (id ∷ ids)) w h =
      store-Found snowflake (parse_i64 (codes id)) w h

  answered-Found :
      (success : Bool) (r : Result ℤ ResolveError × W) (e : ResolveError) (w : W)
      → Found r
      → e ≢ not_found
      → Found (if success then r else (err e, w))
  answered-Found true r e w h k p = h p
  answered-Found false r e w h k p = k cc

  read_answer-Found : (snowflake : ℤ) (a : Answer × W) → Found (read_answer u snowflake a)
  unfolding read_answer
  read_answer-Found snowflake (no_answer, w) h = cc
  read_answer-Found snowflake (answer status retry_after body, w) h =
      answered-Found (is_success status) _ _ w (first_match-Found snowflake body w)
        (refusal-ne-not_found status retry_after) h

  -- There is no row, or one that names neither an identifier nor a URI.
  abbrev pub Unknown : Option (Option Row) → Type 0
  Unknown r =
      (r ≡ some none)
      ⊎ ((row : Row) × (r ≡ some (some row)) × (row.mastodon_local_id ≡ none) × (row.post_uri ≡ ""))

  search_uri-not_found :
      (snowflake : ℤ) (id : Option ℤ) (uri : String) (w : W)
      → (search_uri u snowflake id uri w).0 ≡ err not_found
      → (id ≡ none) × (uri ≡ "") × ((search_uri u snowflake id uri w).1 ≡ w)
  unfolding search_uri
  search_uri-not_found snowflake (some id) uri w h = cc
  search_uri-not_found snowflake none uri w h = elim (Bool-cases (str_eq uri "")) [
    | inl e ↦ (refl, (str_eq_iff uri "").0 e, rw e refl)
    | inr e ↦ absurd (read_answer-Found snowflake (u.search uri w) (rw e at h))
  ]

  search_row-not_found :
      (snowflake : ℤ) (found : Option (Option Row)) (w : W)
      → (search_row u snowflake found w).0 ≡ err not_found
      → Unknown found × ((search_row u snowflake found w).1 ≡ w)
  unfolding search_row
  search_row-not_found snowflake none w h = cc
  search_row-not_found snowflake (some none) w h = (inl refl, refl)
  search_row-not_found snowflake (some (some row)) w h =
      let (a, b, c) = search_uri-not_found snowflake row.mastodon_local_id row.post_uri w h in
      (inr (row, refl, a, b), c)

  or_search-not_found :
      (has_base : Bool) (snowflake : ℤ) (id : Option ℤ) (w : W)
      → (or_search u has_base snowflake id w).0 ≡ err not_found
      → Unknown (u.find_by_id snowflake w) × ((or_search u has_base snowflake id w).1 ≡ w)
  unfolding or_search
  or_search-not_found has_base snowflake (some id) w h = cc
  or_search-not_found false snowflake none w h = cc
  or_search-not_found true snowflake none w h =
      search_row-not_found snowflake (u.find_by_id snowflake w) w h

  lookup-not_found :
      (has_base : Bool) (snowflake : ℤ) (found : Option (Option Row)) (w : W)
      → u.find_by_id snowflake w ≡ found
      → (lookup_then u has_base snowflake found w).0 ≡ err not_found
      → Unknown (u.find_by_id snowflake w) × ((lookup_then u has_base snowflake found w).1 ≡ w)
  unfolding lookup_then
  lookup-not_found has_base snowflake none w e h = cc
  lookup-not_found has_base snowflake (some none) w e h = (inl e, refl)
  lookup-not_found has_base snowflake (some (some row)) w e h =
      or_search-not_found has_base snowflake row.mastodon_local_id w h

  -- The resolver answers `NotFound` only where the snowflake has no row, or a row with neither a
  -- known identifier nor a URI to search for; and then it has sent no request. No answer of the
  -- Mastodon instance leads to it.
  pub resolve-not_found :
      (has_base : Bool) (snowflake : ℤ) (w : W)
      → (resolve u has_base snowflake w).0 ≡ err not_found
      → Unknown (u.find_by_id snowflake w) × ((resolve u has_base snowflake w).1 ≡ w)
  unfolding resolve
  resolve-not_found has_base snowflake w =
      lookup-not_found has_base snowflake (u.find_by_id snowflake w) w refl
