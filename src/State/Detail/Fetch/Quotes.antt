-- ===== src/State/Detail/Fetch/Quotes.antt =====
-- Which statuses are fetched, and which of them quote which.
use fediway.Prelude.{
  ◌≡◌, refl, sym, ap, ◌∙◌, inl, inr, List, [], ◌∷◌, Option, none, some, is_empty, map, All, All-map,
  Bool-cases, if_cases,
}
use mathlib.Core.Path.{subst}
use fediway.Prelude.Int.{ℤ}
use fediway.Prelude.Signed.{codes, parse_i64, to_text}
use fediway.Prelude.Signed.Printed.{IsI64, parse_i64-to_text}
use fediway.Prelude.Float.{Float}
use fediway.Prelude.Map.{get, ℤ_eq}
use fediway.Common.Paperclip.{MediaConfig}
use fediway.Common.Types.{AccountId}
use fediway.Format.Characters.{Text}
use fediway.Entities.Types.{Status, status, Quote, no_quote, quoting, fields_of}
use fediway.State.Detail.Row.{BaseRow, Enrichment}
use fediway.State.Detail.Build.{Library, build_status, status_content}
use fediway.State.Detail.Fetch.{
  Queries, collect_rows, all_built, parsed_id, keep_id, keyed, quote_parent, quote_target, attach,
  gather, enrich, fetch_enriched, fetch_by_ids,
}
use fediway.State.Detail.Fetch.Ensures.{
  Ensures, Ensures-bind, Ensures-skip, get-collect_rows, IfSome, IfSome-bind, IfSome-of_get,
  all_built-Ensures, All-of_map,
}

-- The status stands for an identifier of the database, and quotes nothing.
abbrev pub IsPlain : {F : Type 0} → Status F → Type 0
IsPlain (status s quote) = (quote ≡ no_quote) × (i : ℤ) × IsI64 i × (s.id ≡ to_text i)

module _ {E : Type 0} (db : Queries E) (F : Type 0) ⦃fl : Float F⦄ (lib : Library)
    (instance_domain : Text) (media : MediaConfig) (viewer : Option AccountId) where
  build_status-IsPlain :
      (row : BaseRow) (enrichment : Enrichment)
      → IsI64 row.id
      → IfSome IsPlain (build_status lib instance_domain media {F = F} row enrichment)
  unfolding build_status
  build_status-IsPlain row enrichment h =
      IfSome-bind IsPlain (status_content lib instance_domain media row.domain row.text _ _) _
        (λ content. (refl, row.id, h, refl))

  enrich-IsPlain :
      (base : List BaseRow)
      → All (λ (r : BaseRow). IsI64 r.id) base
      → Ensures (All IsPlain) (enrich db {F = F} lib instance_domain media viewer base)
  unfolding enrich
  enrich-IsPlain base h =
      Ensures-skip (All IsPlain) (gather db lib.captures viewer base)
        (λ enrichment.
          all_built
            (map (λ row. build_status lib instance_domain media {F = F} row enrichment) base))
        (λ enrichment. all_built-Ensures E IsPlain _ (
          All-of_map (λ (r : BaseRow). IsI64 r.id) (IfSome IsPlain) _
            (λ row k. build_status-IsPlain row enrichment k) base h))

  -- The database's identifiers are those of an `i64`.
  abbrev pub Is64 : Type 0
  Is64 = (ids : List ℤ) → Ensures (All (λ (r : BaseRow). IsI64 r.id)) (db.base ids)

  fetch_enriched-IsPlain :
      (ids : List ℤ)
      → Is64
      → Ensures (All IsPlain) (fetch_enriched db {F = F} lib instance_domain media viewer ids)
  unfolding fetch_enriched
  fetch_enriched-IsPlain ids h = elim (Bool-cases (is_empty ids)) [
    | inl e ↦ rw e tt
    | inr e ↦ rw e (
        Ensures-bind (All (λ (r : BaseRow). IsI64 r.id)) (All IsPlain) (db.base ids) _ (h ids)
          (λ base k.
            if_cases (Ensures (All IsPlain)) (is_empty base) _ _ (λ _. tt)
              (λ _. enrich-IsPlain base k)))
  ]

-- A status with its identifier, in a pair of the map by identifiers.
abbrev IsKeyed : {F : Type 0} → ℤ × Status F → Type 0
IsKeyed (i, s) = IsPlain s × ((fields_of s).id ≡ to_text i)

keep_id-IsKeyed :
    {F : Type 0} (s : Status F) (rest : List (ℤ × Status F))
    → IsPlain s
    → All IsKeyed rest
    → All IsKeyed (keep_id (parsed_id s) s rest)
keep_id-IsKeyed (status s quote) rest (plain, i, bound, e) h =
    let read : parse_i64 s.id ≡ some i = ap parse_i64 e ∙ parse_i64-to_text i bound in
    rw read (((plain, i, bound, e), e), h)

keyed-IsKeyed : {F : Type 0} (ss : List (Status F)) → All IsPlain ss → All IsKeyed (keyed ss)
keyed-IsKeyed [] h = tt
keyed-IsKeyed (s ∷ ss) h = keep_id-IsKeyed s (keyed ss) h.0 (keyed-IsKeyed ss h.1)

-- What the quote of the status with identifier `i` may be: nothing, or, accepted, a status that quotes
-- nothing and whose identifier `quotes` relates to `i`.
abbrev pub IsQuote {κ} : {F : Type 0} → (ℤ → ℤ → Type κ) → ℤ → Quote F → Type κ
IsQuote quotes i no_quote = Unit
IsQuote quotes i (quoting state parent) =
    (j : ℤ) × quotes i j
    × (state ≡ codes "accepted")
    × ((fields_of parent).id ≡ to_text j)
    × IsPlain parent

abbrev pub IsQuoting {κ} : {F : Type 0} → (ℤ → ℤ → Type κ) → Status F → Type κ
IsQuoting quotes (status s quote) = (i : ℤ) × IsI64 i × (s.id ≡ to_text i) × IsQuote quotes i quote

IsQuoting-of_IsPlain {κ} :
    {F : Type 0} (quotes : ℤ → ℤ → Type κ) (s : Status F) → IsPlain s → IsQuoting quotes s
IsQuoting-of_IsPlain quotes (status s quote) (plain, i, bound, e) = (i, bound, e, rw plain tt)

quote_parent-IsQuoting {κ} :
    {F : Type 0} (quotes : ℤ → ℤ → Type κ) (i j : ℤ) (s : Status F) (parent : Option (Status F))
    → IsPlain s
    → parsed_id s ≡ some i
    → quotes i j
    → IfSome (λ p. IsKeyed (j, p)) parent
    → IsQuoting quotes (quote_parent parent s)
quote_parent-IsQuoting quotes i j s none plain read q h = IsQuoting-of_IsPlain quotes s plain
quote_parent-IsQuoting quotes i j (status s quote) (some parent) (plain, k, bound, e) read q h =
    let again : parse_i64 s.id ≡ some k = ap parse_i64 e ∙ parse_i64-to_text k bound in
    let same : i ≡ k = cc in (k, bound, e, (j, rw (← same) q, refl, h.1, h.0))

abbrev Relates {κ} : (ℤ → ℤ → Type κ) → ℤ × ℤ → Type κ
Relates quotes r = quotes r.0 r.1

quote_target-IsQuoting {κ} :
    {F : Type 0} (quotes : ℤ → ℤ → Type κ) (parents : List (ℤ × Status F)) (i : ℤ) (s : Status F)
    (target : Option ℤ)
    → All IsKeyed parents
    → IsPlain s
    → parsed_id s ≡ some i
    → IfSome (quotes i) target
    → IsQuoting quotes (quote_target (collect_rows [] parents) target s)
quote_target-IsQuoting quotes parents i s none keys plain read q =
    IsQuoting-of_IsPlain quotes s plain
quote_target-IsQuoting quotes parents i s (some j) keys plain read q =
    quote_parent-IsQuoting quotes i j s (get j (collect_rows [] parents)) plain read q (
      IfSome-of_get (λ p. IsKeyed (j, p)) (get j (collect_rows [] parents))
        (get-collect_rows IsKeyed parents [] keys (λ k a e. unfold get in cc) j))

attach-IsQuoting {κ} :
    {F : Type 0} (quotes : ℤ → ℤ → Type κ) (rows : List (ℤ × ℤ)) (parents : List (ℤ × Status F))
    → All (Relates quotes) rows
    → All IsKeyed parents
    → (s : Status F) → IsPlain s
    → IsQuoting quotes (attach (collect_rows [] rows) (collect_rows [] parents) (parsed_id s) s)
attach-IsQuoting quotes rows parents h keys (status s quote) (plain, i, bound, e) =
    let read : parse_i64 s.id ≡ some i = ap parse_i64 e ∙ parse_i64-to_text i bound in
    subst
      (λ o.
        IsQuoting quotes
          (attach (collect_rows [] rows) (collect_rows [] parents) o (status s quote)))
      (sym read)
      (quote_target-IsQuoting quotes parents i (status s quote) (get i (collect_rows [] rows)) keys
        (plain, i, bound, e) read
        (IfSome-of_get (quotes i) (get i (collect_rows [] rows))
          (get-collect_rows (Relates quotes) rows [] h (λ k a f. unfold get in cc) i)))

module _ {E : Type 0} (db : Queries E) (F : Type 0) ⦃fl : Float F⦄ (lib : Library)
    (instance_domain : Text) (media : MediaConfig) (viewer : Option AccountId) where
  -- Where the rows' identifiers are those of an `i64` and `quotes` holds of every row of the quotes'
  -- table, each fetched status has such an identifier, and its quote, if any, is accepted, is of a
  -- status that it quotes by the table, and itself quotes nothing.
  pub fetch_by_ids-IsQuoting {κ} :
      (quotes : ℤ → ℤ → Type κ) (ids : List ℤ)
      → ((wanted : List ℤ) → Ensures (All (λ (r : BaseRow). IsI64 r.id)) (db.base wanted))
      → ((wanted : List ℤ)
          → Ensures (All (λ (r : ℤ × ℤ). quotes r.0 r.1)) (db.quote_targets wanted))
      → Ensures
          (All (IsQuoting quotes))
          (fetch_by_ids db {F = F} lib instance_domain media viewer ids)
  unfolding fetch_by_ids
  fetch_by_ids-IsQuoting quotes ids is64 related =
      let plain_all =
        λ (ss : List (Status F)) (h : All IsPlain ss). All-map (IsQuoting-of_IsPlain quotes) ss h in
      Ensures-bind (All IsPlain) (All (IsQuoting quotes))
        (fetch_enriched db {F = F} lib instance_domain media viewer ids) _
        (fetch_enriched-IsPlain db F lib instance_domain media viewer ids is64)
        (λ statuses plain.
          if_cases (Ensures (All (IsQuoting quotes))) (is_empty statuses) _ _
            (λ _. plain_all statuses plain)
            (λ _.
              Ensures-bind (All (Relates quotes)) (All (IsQuoting quotes))
                (db.quote_targets (map (λ (k : ℤ × Status F). k.0) (keyed statuses))) _ (related _)
                (λ rows related_rows.
                  if_cases (Ensures (All (IsQuoting quotes))) (is_empty rows) _ _
                    (λ _. plain_all statuses plain)
                    (λ _.
                      Ensures-bind (All IsPlain) (All (IsQuoting quotes))
                        (fetch_enriched db {F = F} lib instance_domain media viewer
                          (map (λ (k : ℤ × ℤ). k.1) (collect_rows [] rows)))
                        _ (fetch_enriched-IsPlain db F lib instance_domain media viewer _ is64)
                        (λ parents plain_parents.
                          All-of_map IsPlain (IsQuoting quotes) _
                            (attach-IsQuoting quotes rows (keyed parents) related_rows
                              (keyed-IsKeyed parents plain_parents))
                            statuses plain)))))
