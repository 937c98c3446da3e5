-- ===== src/State/Detail/Fetch.antt =====
-- crates/state/src/statuses/detail/fetch.rs: the statuses of some identifiers, with the rows that
-- belong to them. The queries are parameters; `try_join!` is the queries one after the other, so that
-- of several errors the first in this order is returned.
pub mod Ensures
pub mod Quotes
use mathlib.Core.Option
use fediway.Prelude.{List, [], ◌∷◌, ◌++◌, Option, none, some, is_empty, map, if◌then◌else◌}
use fediway.Prelude.Int.{ℤ}
use fediway.Prelude.Signed.{codes, parse_i64}
use fediway.Prelude.Float.{Float}
use fediway.Prelude.Map.{Map, Eq, get, insert, ℤ_eq}
use fediway.Prelude.Result.{Result, ok, err}
use fediway.Common.Paperclip.{MediaConfig}
use fediway.Common.Types.{AccountId}
use fediway.Format.Characters.{Text, Text_eq}
use fediway.Entities.Types.{Status, status, quoting, fields_of}
use fediway.State.Detail.Row.{
  BaseRow, CardRow, EmojiRow, Enrichment, MediaRow, MentionRow, StatsRow, StatsTuple, ViewerState,
  no_viewer,
}
use fediway.State.Detail.Emojis.{scan_shortcodes}
use fediway.State.Detail.Build.{Library, build_status, rows_of}

-- What a call comes to: a value, the error of a query, or a panic.
pub data Outcome {ℓ κ} (A : Type ℓ) (E : Type κ) : Type (ℓ ⊔ κ) where
  done : A → Outcome A E
  failed : E → Outcome A E
  panicked : Outcome A E

infixl 5 ◌>>=◌
abbrev pub ◌>>=◌ {ℓ μ κ} :
    {A : Type ℓ} {B : Type μ} {E : Type κ} → Outcome A E → (A → Outcome B E) → Outcome B E
done a >>= f = f a
failed e >>= f = failed e
panicked >>= f = panicked

-- The queries, each on the identifiers that it is asked for.
pub record Queries (E : Type 0) : Type 0 where
  pub base : List ℤ → Outcome (List BaseRow) E
  pub stats : List ℤ → Outcome (List StatsTuple) E
  pub media : List ℤ → Outcome (List MediaRow) E
  pub tags : List ℤ → Outcome (List (ℤ × Text)) E
  pub cards : List ℤ → Outcome (List CardRow) E
  pub mentions : List ℤ → Outcome (List MentionRow) E
  pub favourited : AccountId → List ℤ → Outcome (List ℤ) E
  pub bookmarked : AccountId → List ℤ → Outcome (List ℤ) E
  pub reblogged : AccountId → List ℤ → Outcome (List ℤ) E
  pub emojis : List Text → Outcome (List EmojiRow) E
  pub quote_targets : List ℤ → Outcome (List (ℤ × ℤ)) E

-- `map.entry(key).or_default().push(row)` for each row.
abbrev pub group_rows {ℓ} : {A : Type ℓ} → Map ℤ (List A) → List (ℤ × A) → Map ℤ (List A)
group_rows m [] = m
group_rows m ((key, row) ∷ rows) = group_rows (insert key (rows_of (get key m) ++ row ∷ []) m) rows

-- `collect()` into a map: a later row takes the place of an earlier one.
abbrev pub collect_rows {ℓ} : {A : Type ℓ} → Map ℤ A → List (ℤ × A) → Map ℤ A
collect_rows m [] = m
collect_rows m ((key, row) ∷ rows) = collect_rows (insert key row m) rows

-- `map.entry(key).or_insert(row)` for each row.
abbrev kept_emoji : Option EmojiRow → EmojiRow → Map Text EmojiRow → Map Text EmojiRow
kept_emoji none row m = insert row.shortcode row m
kept_emoji (some old) row m = m

abbrev emoji_rows : Map Text EmojiRow → List EmojiRow → Map Text EmojiRow
emoji_rows m [] = m
emoji_rows m (row ∷ rows) = emoji_rows (kept_emoji (get row.shortcode m) row m) rows

abbrev stats_of : StatsTuple → ℤ × StatsRow
stats_of r = (
  r.status_id,
  record {
    replies = r.replies_count;
    reblogs = r.reblogs_count;
    favourites = r.favourites_count;
    quotes = r.quotes_count;
  },
)

-- All statuses, unless one of them panics.
abbrev pub all_built {ℓ κ} : {A : Type ℓ} {E : Type κ} → List (Option A) → Outcome (List A) E
all_built [] = done []
all_built (none ∷ os) = panicked
all_built (some a ∷ os) = all_built os >>= λ rest. done (a ∷ rest)

-- The value under which a status is looked up: its identifier read back.
abbrev pub parsed_id : {F : Type 0} → Status F → Option ℤ
parsed_id s = parse_i64 (fields_of s).id

abbrev pub keep_id {ℓ} : {A : Type ℓ} → Option ℤ → A → List (ℤ × A) → List (ℤ × A)
keep_id none a rest = rest
keep_id (some id) a rest = (id, a) ∷ rest

-- The statuses whose identifier is a number, with the number.
abbrev pub keyed : {F : Type 0} → List (Status F) → List (ℤ × Status F)
keyed [] = []
keyed (s ∷ ss) = keep_id (parsed_id s) s (keyed ss)

module _ {F : Type 0} where
  -- The quoted status, if there is one and it was found, in the place of the quote.
  abbrev pub quote_parent : Option (Status F) → Status F → Status F
  quote_parent none s = s
  quote_parent (some parent) (status s quote) = status s (quoting (codes "accepted") parent)

  abbrev pub quote_target : Map ℤ (Status F) → Option ℤ → Status F → Status F
  quote_target parents none s = s
  quote_target parents (some quoted_id) s = quote_parent (get quoted_id parents) s

  abbrev pub attach : Map ℤ ℤ → Map ℤ (Status F) → Option ℤ → Status F → Status F
  attach targets parents none s = s
  attach targets parents (some sid) s = quote_target parents (get sid targets) s

module _ {E : Type 0} (db : Queries E) where
  viewer_state : Option AccountId → List ℤ → Outcome ViewerState E
  viewer_state none ids = done no_viewer
  viewer_state (some viewer) ids =
      if is_empty ids
      then done no_viewer
      else (db.favourited viewer ids >>= λ favourited. db.bookmarked viewer ids >>= λ bookmarked.
          db.reblogged viewer ids >>= λ reblogged.
          done (record { favourited = favourited; bookmarked = bookmarked; reblogged = reblogged }))

  emojis_of : List Text → Outcome (Map Text EmojiRow) E
  emojis_of shortcodes =
      if is_empty shortcodes
      then done []
      else (db.emojis shortcodes >>= λ rows. done (emoji_rows [] rows))

  -- All rows that belong to some statuses.
  gather : (Text → List Text) → Option AccountId → List BaseRow → Outcome Enrichment E
  unfolding viewer_state emojis_of
  gather captures viewer base =
      let ids = map (λ (r : BaseRow). r.id) base in
      db.stats ids >>= λ stats. db.media ids >>= λ media_rows. db.tags ids >>= λ tags.
      db.cards ids >>= λ cards. db.mentions ids >>= λ mentions. viewer_state viewer ids >>= λ state.
      emojis_of (scan_shortcodes captures base) >>= λ emojis. done (record {
        stats = collect_rows [] (map stats_of stats);
        media = group_rows [] (map (λ (r : MediaRow). (r.status_id, r)) media_rows);
        tags = group_rows [] tags;
        cards = collect_rows [] (map (λ (r : CardRow). (r.status_id, r)) cards);
        mentions = group_rows [] (map (λ (r : MentionRow). (r.status_id, r)) mentions);
        emojis = emojis;
        viewer = state;
      })

  module _ {F : Type 0} ⦃fl : Float F⦄ (lib : Library) (instance_domain : Text)
      (media : MediaConfig) (viewer : Option AccountId) where
    enrich : List BaseRow → Outcome (List (Status F)) E
    unfolding gather
    enrich base = gather lib.captures viewer base >>= λ enrichment.
        all_built (map (λ row. build_status lib instance_domain media row enrichment) base)

    unfoldable pub fetch_enriched : List ℤ → Outcome (List (Status F)) E
    unfolding enrich
    fetch_enriched ids =
        if is_empty ids
        then done []
        else (db.base ids >>= λ base. if is_empty base then done [] else enrich base)

    unfoldable pub fetch_by_ids : List ℤ → Outcome (List (Status F)) E
    unfolding fetch_enriched
    fetch_by_ids ids = fetch_enriched ids >>= λ statuses.
        if is_empty statuses
        then done statuses
        else (db.quote_targets (map (λ (k : ℤ × Status F). k.0) (keyed statuses)) >>= λ rows.
            if is_empty rows
            then done statuses
            else (let targets = collect_rows [] rows in
                fetch_enriched (map (λ (k : ℤ × ℤ). k.1) targets) >>= λ parents.
                let parent_by_id = collect_rows [] (keyed parents) in
                done (map (λ s. attach targets parent_by_id (parsed_id s) s) statuses)))
