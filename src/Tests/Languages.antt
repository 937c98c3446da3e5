-- ===== src/Tests/Languages.antt =====
-- The languages of headers, with qualities in hundredths.
use fediway.Prelude.{◌≡◌, refl, ◌∷◌, [], some, All, Among}
use fediway.Prelude.Signed.{codes}
use fediway.Prelude.Sort.{IsSorted, sort_by}
use fediway.Prelude.Decimal.{parse_usize}
use fediway.Format.Characters.{Text, find, split_at, split_char}
use fediway.Server.Auth.{trim}
use fediway.Server.Language.{by_quality, language_of, ranked, parse_accept_language, split_once}
use fediway.Server.Language.Distinct.{IsApart, tags}
use fediway.Server.Language.Ranked.{named, ranked-IsSorted}
use fediway.Tests.Scores.{hundredths, hundredths-IsIeee}

program : Unit {0}
unfolding parse_accept_language ranked language_of split_once trim find split_at split_char sort_by
    parse_usize
program = tt

abbrev lower : Text → Text
lower s = s

abbrev header : Text
header = codes "de;q=50, en-US, *;q=10, en,fr;q=70"

languages_run :
    parse_accept_language lower parse_usize (some header)
    ≡ codes "en" ∷ codes "fr" ∷ codes "de" ∷ []
unfolding program
languages_run = refl

ranked-IsSorted_example :
    IsSorted by_quality (ranked lower parse_usize header)
    × IsApart (ranked lower parse_usize header)
    × All (λ l. Among l.0 (tags (ranked lower parse_usize header))) (named lower parse_usize header)
    × All (λ l. Among l (named lower parse_usize header)) (ranked lower parse_usize header)
unfolding program
ranked-IsSorted_example =
    ranked-IsSorted lower parse_usize header hundredths-IsIeee (refl, (refl, (refl, (refl, tt))))
