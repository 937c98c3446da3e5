-- ===== src/Entities/Cards.antt =====
-- crates/mastodon/src/preview_card.rs and the conversion of tag.rs: the cards of posts and of trending
-- links, and trending tags. The clock is an argument: the second at which the day begins.
use mathlib.Core.Option
use fediway.Prelude.{
  ℕ, zero, suc, ltb, Bool, ◌||◌, List, [], ◌∷◌, Option, none, some, String, is_empty, map,
  if◌then◌else◌,
}
use fediway.Prelude.Int.{ℤ, pos, pos_part}
use fediway.Prelude.Signed.{codes, to_text}
use fediway.Prelude.{display}
use fediway.Common.Types.{CardPreview, Link, Tag as TrendingTag}
use fediway.Format.Links.{Tag}
use fediway.Format.Characters.{Text}
use fediway.Format.Remote.{Cleaner}
use fediway.Entities.Types.{PreviewCard, PreviewCardAuthor, PreviewCardHistory}

-- Nobody where the name is missing or empty.
abbrev pub authors_of : Option String → List PreviewCardAuthor
authors_of none = []
authors_of (some name) =
    if is_empty (codes name) then [] else record { name = codes name; url = [] } ∷ []

abbrev pub text_or : Option String → Text
text_or s = Option.get_or (Option.map codes s) []

unfoldable pub card_of_preview : CardPreview → PreviewCard
card_of_preview card = record {
  url = codes card.url;
  title = codes card.title;
  description = codes card.description;
  card_type = codes card.link_type;
  authors = authors_of card.author_name;
  author_name = text_or card.author_name;
  author_url = [];
  provider_name = text_or card.provider_name;
  provider_url = [];
  html = text_or card.embed_html;
  width = Option.get_or card.image_width (pos 0);
  height = Option.get_or card.image_height (pos 0);
  image = Option.map codes card.image_url;
  image_description = [];
  embed_url = Option.map codes card.embed_url;
  blurhash = Option.map codes card.blurhash;
  history = [];
}

abbrev pub history_days : ℕ
history_days = 7

abbrev pub is_positive : ℤ → Bool
is_positive v = ltb 0 (pos_part v)

-- The days after the first, each a day earlier: `today` counts seconds.
earlier_days : ℕ → (ℕ → ℤ) → ℕ → List PreviewCardHistory
earlier_days zero day i = []
earlier_days (suc n) day i =
    record { day = codes (display (day i)); accounts = codes "0"; uses = codes "0" }
    ∷ earlier_days n day (suc i)

-- `build_history`; `day i` is the timestamp of the day `i` days ago.
unfoldable pub build_history : (ℕ → ℤ) → ℤ → ℤ → List PreviewCardHistory
unfolding earlier_days
build_history day post_count account_count =
    record {
      day = codes (display (day 0));
      accounts = codes (display account_count);
      uses = codes (display post_count);
    }
    ∷ earlier_days 6 day 1

unfoldable pub card_of_link : Cleaner → (ℕ → ℤ) → Link → PreviewCard
card_of_link cleaner day link =
    let history =
      if is_positive link.post_count || is_positive link.account_count
      then build_history day link.post_count link.account_count
      else [] in
    record {
      url = codes link.url;
      title = cleaner.sanitize_text (codes link.title);
      description = cleaner.sanitize_text (codes link.description);
      card_type = codes link.link_type;
      authors = authors_of link.author_name;
      author_name = cleaner.sanitize_text (text_or link.author_name);
      author_url = [];
      provider_name = cleaner.sanitize_text (text_or link.provider_name);
      provider_url = [];
      html = cleaner.sanitize_html (text_or link.embed_html);
      width = Option.get_or link.image_width (pos 0);
      height = Option.get_or link.image_height (pos 0);
      image = Option.map codes link.image_url;
      image_description = [];
      embed_url = Option.map codes link.embed_url;
      blurhash = Option.map codes link.blurhash;
      history = history;
    }

-- `From<types::Tag> for Tag`
unfoldable pub tag_of : TrendingTag → Tag
tag_of tag = record {
  name = codes tag.name;
  url = codes tag.url;
  history =
      map (λ h. record { day = codes h.day; uses = to_text h.uses; accounts = to_text h.accounts })
        tag.history;
}
