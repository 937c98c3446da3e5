-- ===== src/Server/Resolver/Mapping.antt =====
-- The mapping from snowflakes to local identifiers that apps/server/src/mastodon/resolve.rs keeps.
use mathlib.Core.Path.{subst}
use fediway.Prelude.{
  inl, inr, ◌≡◌, ◌≢◌, refl, ap, ◌∙◌, Bool, true, false, Option, none, some, String, str_eq, List,
  [], ◌∷◌, Bool-cases, if◌then◌else◌,
}
use fediway.Prelude.Int.{ℤ}
use fediway.Prelude.Result.{Result, ok, err}
use fediway.Prelude.Signed.{codes, parse_i64}
use fediway.Server.Resolver.{
  ResolveError, db, not_found, Row, Answer, no_answer, answer, Upstream, is_success, store,
  first_match, read_answer, search_uri, search_row, or_search, lookup_then, resolve,
}

-- A row with the identifier is found.
abbrev pub IsMapped : {W : Type 0} → Upstream W → ℤ → ℤ → W → Type 0
IsMapped u snowflake id w =
    (row : Row) × (u.find_by_id snowflake w ≡ some (some row)) × (row.mastodon_local_id ≡ some id)

-- The database keeps what it says it has stored.
abbrev pub Stores : {W : Type 0} → Upstream W → Type 0
Stores {W} u =
    (snowflake id : ℤ) (w : W)
    → (u.set_mastodon_local_id snowflake id w).0 ≡ true
    → IsMapped u snowflake id (u.set_mastodon_local_id snowflake id w).1

not_found_not-ok : {id : ℤ} → ◌≢◌ {A = Result ℤ ResolveError} (err not_found) (ok id)
not_found_not-ok h = cc

module _ {W : Type 0} (u : Upstream W) where
  mapped_resolve :
      (has_base : Bool) (snowflake id : ℤ) (w : W)
      → IsMapped u snowflake id w
      → resolve u has_base snowflake w ≡ (ok id, w)
  unfolding resolve lookup_then or_search
  mapped_resolve has_base snowflake id w (row, found, known) = rw (found, known) refl

  module _ (stores : Stores u) (snowflake id : ℤ) where
    -- The answer is an identifier, and it is stored.
    abbrev Answers : Result ℤ ResolveError × W → Type 0
    Answers r = r.0 ≡ ok id → IsMapped u snowflake id r.1

    stored-Answers :
        (stored : Bool) (local_id : ℤ) (w : W)
        → (stored ≡ true → IsMapped u snowflake local_id w)
        → Answers (if stored then ok local_id else err db, w)
    stored-Answers true local_id w h e =
        let same : local_id ≡ id = cc in subst (λ i. IsMapped u snowflake i w) same (h refl)
    stored-Answers false local_id w h e = cc

    store-Answers : (local_id : Option ℤ) (w : W) → Answers (store u snowflake local_id w)
    unfolding store
    store-Answers none w e = cc
    store-Answers (some local_id) w e =
        stored-Answers (u.set_mastodon_local_id snowflake local_id w).0 local_id _
          (stores snowflake local_id w) e

    first_match-Answers :
        (body : Option (List String)) (w : W) → Answers (first_match u snowflake body w)
    unfolding first_match
    first_match-Answers none w e = cc
    first_match-Answers (some []) w e = cc
    first_match-Answers (some (text ∷ texts)) w e = store-Answers (parse_i64 (codes text)) w e

    either-Answers :
        (success : Bool) (r : Result ℤ ResolveError × W) (x : ResolveError) (w : W)
        → Answers r
        → Answers (if success then r else (err x, w))
    either-Answers true r x w h e = h e
    either-Answers false r x w h e = cc

    read_answer-Answers : (a : Answer × W) → Answers (read_answer u snowflake a)
    unfolding read_answer
    read_answer-Answers (no_answer, w) e = cc
    read_answer-Answers (answer status retry_after body, w) e =
        either-Answers (is_success status) _ _ w (first_match-Answers body w) e

    search_uri-Answers :
        (row : Row) (w : W)
        → u.find_by_id snowflake w ≡ some (some row)
        → (known : Option ℤ) → row.mastodon_local_id ≡ known
        → Answers (search_uri u snowflake known row.post_uri w)
    unfolding search_uri
    search_uri-Answers row w f (some i) k e = let same : i ≡ id = cc in (row, f, k ∙ ap some same)
    search_uri-Answers row w f none k e = elim (Bool-cases (str_eq row.post_uri "")) [
      | inl b ↦ absurd (not_found_not-ok (rw b at e))
      | inr b ↦ rw b (read_answer-Answers (u.search row.post_uri w) (rw b at e))
    ]

    -- From here on the world is the one in which the row was found.
    search_row-Answers :
        (found : Option (Option Row)) (w : W)
        → u.find_by_id snowflake w ≡ found
        → Answers (search_row u snowflake found w)
    unfolding search_row
    search_row-Answers none w f e = cc
    search_row-Answers (some none) w f e = cc
    search_row-Answers (some (some row)) w f e =
        search_uri-Answers row w f row.mastodon_local_id refl e

    or_search-Answers :
        (has_base : Bool) (row : Row) (w : W)
        → u.find_by_id snowflake w ≡ some (some row)
        → (known : Option ℤ) → row.mastodon_local_id ≡ known
        → Answers (or_search u has_base snowflake known w)
    unfolding or_search
    or_search-Answers has_base row w f (some i) k e =
        let same : i ≡ id = cc in (row, f, k ∙ ap some same)
    or_search-Answers false row w f none k e = cc
    or_search-Answers true row w f none k e = search_row-Answers (u.find_by_id snowflake w) w refl e

    lookup-Answers :
        (has_base : Bool) (found : Option (Option Row)) (w : W)
        → u.find_by_id snowflake w ≡ found
        → Answers (lookup_then u has_base snowflake found w)
    unfolding lookup_then
    lookup-Answers has_base none w f e = cc
    lookup-Answers has_base (some none) w f e = cc
    lookup-Answers has_base (some (some row)) w f e =
        or_search-Answers has_base row w f row.mastodon_local_id refl e

    resolve-Answers : (has_base : Bool) (w : W) → Answers (resolve u has_base snowflake w)
    unfolding resolve
    resolve-Answers has_base w = lookup-Answers has_base (u.find_by_id snowflake w) w refl

    -- A snowflake that was resolved stays resolved: in the state after a successful answer the next
    -- call gives the same identifier, and sends no request.
    pub resolve-resolve :
        (has_base again : Bool) (w w' : W)
        → resolve u has_base snowflake w ≡ (ok id, w')
        → resolve u again snowflake w' ≡ (ok id, w')
    resolve-resolve has_base again w w' h =
        let mapped = resolve-Answers has_base w (ap (λ r. r.0) h) in
        mapped_resolve again snowflake id w'
          (subst (IsMapped u snowflake id) (ap (λ r. r.1) h) mapped)
