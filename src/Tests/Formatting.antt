-- ===== src/Tests/Formatting.antt =====
-- Texts with links, mentions and hashtags, and what the formatter makes of them.
use mathlib.Core.Option
use fediway.Prelude.{
  ℕ, ◌≡◌, refl, Bool, ◌||◌, ◌&&◌, List, [], ◌∷◌, ◌++◌, none, some, leb, arith, All, Among,
}
use fediway.Prelude.Signed.{codes}
use mathlib.Core.List.{flatten}
use fediway.Prelude.Sort.{sort_by}
use fediway.Format.Characters.{Text, split_at, find, split_char, replace_char}
use fediway.Format.Escape.{escape_text, escape_attr, unescape, IsInert, IsTagless, unescape-escape}
use fediway.Format.Matches.{Span, push_word_matches}
use fediway.Format.Matches.Scan.{words}
use fediway.Format.Matches.Scan.Loop.{push_word_matches-eq-words}
use fediway.Format.Spans.{choose_spans, assemble}
use fediway.Format.Spans.Choice.{IsChain, IsCovered, choose_spans-IsCovered}
use fediway.Format.Spans.Render.{Rendered}
use fediway.Format.Links.{Mention, Tag, shortened_link, mention_html, tag_html}
use fediway.Format.Links.Shortened.{IsCut, shortened_link-IsCut, shortened_link_panics}
use fediway.Format.Local.{paragraphs, format_local}
use fediway.Format.Local.Whole.{IsLinkable, text_spans, format_local-Rendered}

program : Unit {0}
unfolding split_at find split_char replace_char escape_text escape_attr push_word_matches
    choose_spans assemble shortened_link mention_html tag_html paragraphs format_local sort_by
    flatten
program = tt

abbrev alphanumeric : ℕ → Bool
alphanumeric c =
    (leb b'0' c && leb c b'9') || (leb b'a' c && leb c b'z') || (leb b'A' c && leb c b'Z')

abbrev ann : Mention
ann = record {
  id = codes "1";
  username = codes "ann";
  url = codes "https://a.b/@ann";
  acct = codes "ann@a.b";
}

abbrev rust : Tag
rust = record { name = codes "rust"; url = codes "/tags/rust"; history = [] }

words_run :
    push_word_matches alphanumeric
      (codes "#rust #rusty x#rust #rust")
      (codes "#rust")
      (codes "T")
      []
    ≡ some (
        record { start = 0; end = 5; html = codes "T" }
        ∷ record { start = 20; end = 25; html = codes "T" }
        ∷ [])
unfolding program
words_run = refl

format_run :
    format_local alphanumeric (λ _. []) (codes "a < b\n\n#rust") [] (rust ∷ []) (codes "x.y")
    ≡ some (
        codes
          "<p>a &lt; b</p><p><a href=\"https://x.y/tags/rust\" class=\"mention hashtag\" rel=\"tag\">#<span>rust</span></a></p>")
unfolding program
format_run = refl

push_word_matches-eq-words_example :
    push_word_matches alphanumeric (codes "#rust x#rust #rust") (codes "#rust") (codes "T") []
    ≡ some ([] ++ words alphanumeric (codes "#rust") (codes "T") (codes "#rust x#rust #rust"))
push_word_matches-eq-words_example =
    push_word_matches-eq-words alphanumeric (codes "#rust x#rust #rust") (codes "#rust") (codes "T")
      []

unescape-escape_example :
    (unescape (escape_text (codes "a<b>\"&")) ≡ codes "a<b>\"&")
    × All IsTagless (escape_text (codes "a<b>\"&"))
    × (unescape (escape_attr (codes "a<b>\"&")) ≡ codes "a<b>\"&")
    × All IsInert (escape_attr (codes "a<b>\"&"))
unescape-escape_example = unescape-escape (codes "a<b>\"&")

-- A short and a long span at one place, one inside the long one, and one behind it.
abbrev crossing : List Span
crossing =
    record { start = 6; end = 9; html = codes "3" }
    ∷ record { start = 2; end = 4; html = codes "1" }
    ∷ record { start = 2; end = 6; html = codes "2" }
    ∷ record { start = 5; end = 7; html = codes "4" }
    ∷ []

choose_spans-IsCovered_example :
    IsChain 0 (choose_spans crossing)
    × All (λ s. Among s crossing) (choose_spans crossing)
    × All (IsCovered (choose_spans crossing)) crossing
choose_spans-IsCovered_example = choose_spans-IsCovered crossing

abbrev long_url : Text
long_url = codes "https://www.example.org/a/path/that/is/long/enough/to/be/cut"

shortened_link-IsCut_example : IsCut long_url (shortened_link long_url)
shortened_link-IsCut_example = shortened_link-IsCut long_url

-- 29 bytes, and then a letter of two.
abbrev front : Text
front = codes "b.net/123456789012345678901/c"

shortened_link_panics_example :
    shortened_link (codes "https://" ++ (front ++ 233 ∷ codes "t")) ≡ none
shortened_link_panics_example =
    shortened_link_panics front 233 (codes "t") (omega arith) (omega arith) refl

abbrev linked_text : Text
linked_text = codes "see https://b.net @ann"

abbrev one_link : Text → List (ℕ × ℕ)
one_link text = (4, 17) ∷ []

abbrev link_text : Text
link_text = Option.get_or (shortened_link (codes "https://b.net")) []

one_link-IsLinkable : All (IsLinkable linked_text) (one_link linked_text)
unfolding program
one_link-IsLinkable =
    ((codes "see ", codes "https://b.net", codes " @ann", link_text, refl, refl, refl, refl), tt)

format_local-Rendered_example :
    (out : Text) × (format_local alphanumeric one_link linked_text
        (ann ∷ [])
        (rust ∷ [])
        (codes "x.y")
      ≡ some (paragraphs out))
    × Rendered 0 linked_text
        (choose_spans (
          text_spans alphanumeric one_link linked_text
            (codes "x.y")
            (ann ∷ [])
            (rust ∷ [])
            one_link-IsLinkable))
        out
format_local-Rendered_example =
    format_local-Rendered alphanumeric one_link linked_text (codes "x.y") (ann ∷ []) (rust ∷ [])
      one_link-IsLinkable
