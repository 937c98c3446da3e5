-- ===== src/State/Detail/Emojis.antt =====
-- `build_emojis` and `scan_shortcodes` of crates/state/src/statuses/detail/row.rs. What the regex
-- library captures in a text, in order, is a parameter.
pub mod Once
use mathlib.Core.Option
use fediway.Prelude.{
  Bool, true, false, ◌&&◌, ◌||◌, List, [], ◌∷◌, ◌++◌, Option, none, some, ◌>>=◌, leb, is_some,
  if◌then◌else◌, flatten, map, foldl,
}
use fediway.Prelude.Int.{ℤ, pos, pos_part}
use fediway.Prelude.Map.{Map, get}
use fediway.Common.Paperclip.{MediaConfig, custom_emoji_url}
use fediway.Format.Characters.{Text, text_eq, Text_eq}
use fediway.Entities.Types.{CustomEmoji}
use fediway.State.Detail.Row.{BaseRow, EmojiRow}

-- `HashSet::contains`, the set as the list of what was inserted.
abbrev pub holds : List Text → Text → Bool
holds [] s = false
holds (t ∷ ts) s = text_eq t s || holds ts s

-- `schema_version.unwrap_or(0) >= 1`
abbrev pub has_schema : Option ℤ → Bool
has_schema none = false
has_schema (some v) = leb 1 (pos_part v)

abbrev emoji_with : EmojiRow → Text → CustomEmoji
emoji_with row url = record {
  shortcode = row.shortcode;
  url = url;
  static_url = url;
  visible_in_picker = true;
}

module _ (emojis : Map Text EmojiRow) (media : MediaConfig) where
  emoji_url : EmojiRow → Option Text
  emoji_url row =
      custom_emoji_url media row.id row.image_file_name row.image_remote_url
        (is_some row.domain && has_schema row.image_storage_schema_version)

  -- The emoji of a shortcode, if there is a row and the row has an image.
  unfoldable pub emoji_of : Text → Option CustomEmoji
  unfolding emoji_url
  emoji_of shortcode =
      get shortcode emojis >>= λ row. emoji_url row >>= λ url. some (emoji_with row url)

  -- One shortcode: `used` holds those that were pushed.
  push_emoji :
      Option CustomEmoji → Text → List Text × List CustomEmoji → List Text × List CustomEmoji
  push_emoji none shortcode (used, out) = (used, out)
  push_emoji (some emoji) shortcode (used, out) = (shortcode ∷ used, out ++ emoji ∷ [])

  emoji_step : List Text × List CustomEmoji → Text → List Text × List CustomEmoji
  unfolding push_emoji
  emoji_step (used, out) shortcode =
      if holds used shortcode
      then (used, out)
      else push_emoji (emoji_of shortcode) shortcode (used, out)

  unfoldable pub build_emojis : (Text → List Text) → List Text → List CustomEmoji
  unfolding emoji_step
  build_emojis captures texts =
      (foldl (λ state text. foldl emoji_step state (captures text)) ([], []) texts).1

insert_code : List Text → Text → List Text
insert_code set code = if holds set code then set else code ∷ set

unfoldable pub scan_shortcodes : (Text → List Text) → List BaseRow → List Text
unfolding insert_code
scan_shortcodes captures base =
    foldl
      (λ set (row : BaseRow).
        foldl (λ set text. foldl insert_code set (captures text)) set
          (row.text ∷ row.spoiler_text ∷ row.display_name ∷ row.note ∷ []))
      [] base
