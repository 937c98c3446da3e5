-- ===== src/Server/Language.antt =====
-- apps/server/src/language.rs: the languages of a request. The header is there and readable as text, or
-- none; lower case and the reading of an `f32` are parameters.
pub mod Ranked
pub mod Distinct
use mathlib.Core.Option
use fediway.Prelude.{
  ℕ, Bool, not, ◌||◌, List, [], ◌∷◌, Option, none, some, ◌>>=◌, is_empty, map, length, drop,
  get_elem?, if◌then◌else◌,
}
use fediway.Prelude.Signed.{codes}
use fediway.Prelude.Float.{Float, fgt}
use fediway.Prelude.Sort.{sort_by}
use fediway.Format.Characters.{Text, find, split_at, split_char, text_eq}
use fediway.Sources.CommonFeed.Posts.{filter_map}
use fediway.Server.Auth.{Account, trim}

-- `str::split_once`
unfoldable pub split_once : Text → Text → Option (Text × Text)
unfolding find split_at
split_once needle s = do
  i ← find needle s
  parts ← split_at i s
  some (parts.0, drop (length needle) parts.1)

module _ {F : Type 0} ⦃fl : Float F⦄ where
  -- `b.1.partial_cmp(&a.1).unwrap_or(Equal)` is not `Greater`.
  abbrev pub by_quality : Text × F → Text × F → Bool
  by_quality a b = not (fgt b.1 a.1)

  -- `dedup_by`: an element like the one that was kept last is dropped.
  dedup_after : Text × F → List (Text × F) → List (Text × F)
  dedup_after last [] = []
  dedup_after last (l ∷ ls) =
      let same = dedup_after last ls in
      let other = dedup_after l ls in if text_eq l.0 last.0 then same else l ∷ other

  pub dedup_by : List (Text × F) → List (Text × F)
  unfolding dedup_after
  dedup_by [] = []
  dedup_by (l ∷ ls) = l ∷ dedup_after l ls

module _ {F : Type 0} ⦃fl : Float F⦄ (to_lowercase : Text → Text)
    (parse_f32 : Text → Option F) where
  -- The language of an entry and its quality, which is one where the entry names none.
  abbrev tag_and_quality : Text → Option (Text × Text) → Text × F
  tag_and_quality entry none = (entry, fl.of_nat 1)
  tag_and_quality entry (some (lang, quality)) =
      (trim lang, Option.get_or (parse_f32 (trim quality)) fl.zero)

  -- The closure of `filter_map`.
  unfoldable pub language_of : Text → Option (Text × F)
  unfolding trim split_char split_once
  language_of raw =
      let entry = trim raw in
      let (lang, quality) = tag_and_quality entry (split_once (codes ";q=") entry) in
      get_elem? (split_char b'-' lang) 0 >>= λ primary.
      if is_empty primary || text_eq primary (codes "*")
      then none
      else some (to_lowercase primary, quality)

  -- The languages with their qualities, before the qualities are dropped.
  unfoldable pub ranked : Text → List (Text × F)
  unfolding language_of dedup_by sort_by
  ranked header = dedup_by (sort_by by_quality (filter_map language_of (split_char b',' header)))

  unfoldable pub parse_accept_language : Option Text → List Text
  unfolding ranked
  parse_accept_language none = []
  parse_accept_language (some header) = map (λ l. l.0) (ranked header)

  chosen_or : List Text → Option Text → List Text
  chosen_or [] header = parse_accept_language header
  chosen_or (l ∷ ls) header = l ∷ ls

  unfoldable pub resolve_languages : Option Account → Option Text → List Text
  unfolding chosen_or
  resolve_languages none header = parse_accept_language header
  resolve_languages (some account) header = chosen_or account.chosen_languages header
