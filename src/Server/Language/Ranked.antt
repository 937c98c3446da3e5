-- ===== src/Server/Language/Ranked.antt =====
-- The order of the languages of a request.
use fediway.Prelude.{List, Option, All, All-Among, Among}
use fediway.Prelude.Float.{Float, IsIeee}
use fediway.Prelude.Sort.{IsSorted, sort_by, sort_by-All, sort_by-All_inv, sort_by-IsSorted_on}
use fediway.Format.Characters.{Text, split_char}
use fediway.Sources.CommonFeed.Posts.{filter_map}
use fediway.Server.Language.{language_of, by_quality, ranked}
use fediway.Server.Language.Distinct.{
  IsApart, tags, HasQuality, by_quality_total, by_quality_trans, dedup_by-facts, dedup_by-All,
}

module _ {F : Type 0} ⦃fl : Float F⦄ (to_lowercase : Text → Text)
    (parse_f32 : Text → Option F) where
  -- The languages of a header's entries, in their order there.
  abbrev pub named : Text → List (Text × F)
  named header = filter_map (language_of to_lowercase parse_f32) (split_char b',' header)

  -- Where floats compare as IEEE 754 says and no entry of the header has NaN for its quality, the
  -- languages of a header are in the descending order of quality, no two that stand next to each other
  -- are the same, every language that an entry names is among them, and each is that of an entry.
  pub ranked-IsSorted :
      (header : Text)
      → IsIeee fl
      → All HasQuality (named header)
      → IsSorted by_quality (ranked to_lowercase parse_f32 header)
        × IsApart (ranked to_lowercase parse_f32 header)
        × All (λ l. Among l.0 (tags (ranked to_lowercase parse_f32 header))) (named header)
        × All (λ l. Among l (named header)) (ranked to_lowercase parse_f32 header)
  unfolding ranked
  ranked-IsSorted header laws numbers =
      let entries = named header in
      let in_order : IsSorted by_quality (sort_by by_quality entries) =
        sort_by-IsSorted_on HasQuality by_quality (by_quality_total laws) (by_quality_trans laws)
          entries numbers in
      let (sorted, apart, kept) = dedup_by-facts (sort_by by_quality entries) in_order in
      (
        sorted,
        apart,
        sort_by-All_inv _ by_quality entries kept,
        dedup_by-All (λ l. Among l entries) _
            (sort_by-All _ by_quality entries (All-Among entries)),
      )
