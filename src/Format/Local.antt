-- ===== src/Format/Local.antt =====
-- `format_local` of crates/mastodon/src/formatter.rs. The Unicode class of letters and digits and
-- the matches of the URL pattern, which the regex library finds, are parameters.
pub mod Whole
pub mod Lines
use fediway.Prelude.{
  ℕ, ◌+◌, Bool, ◌&&◌, List, [], ◌∷◌, ◌++◌, Option, none, some, ◌>>=◌, ◌==◌, if◌then◌else◌, map,
  filter, flatten, is_empty, not, get_elem?,
}
use fediway.Prelude.Signed.{codes}
use fediway.Format.Characters.{Text, slice, split_char, extend, replace_char}
use fediway.Format.Matches.{Span, found, push_word_matches}
use fediway.Format.Spans.{choose_spans, assemble}
use fediway.Format.Links.{Mention, Tag, shortened_link, mention_html, tag_html}

-- `str::split` at an empty line.
unfoldable pub split_blank : Text → List Text
split_blank [] = [] ∷ []
split_blank (c ∷ []) = (c ∷ []) ∷ []
split_blank (c ∷ d ∷ s) =
    let blank = [] ∷ split_blank s in
    let longer = extend c (split_blank (d ∷ s)) in
    if c == b'\n' && d == b'\n' then blank else longer

abbrev pub paragraph : Text → Text
paragraph p = codes "<p>" ++ (replace_char b'\n' (codes "<br />") p ++ codes "</p>")

-- The last step: paragraphs and line breaks.
unfoldable pub paragraphs : Text → Text
unfolding split_blank
paragraphs out =
    let parts = map paragraph (filter (λ p. not (is_empty p)) (split_blank out)) in
    if is_empty parts then codes "<p></p>" else flatten parts

module _ (is_alphanumeric : ℕ → Bool) (find_iter : Text → List (ℕ × ℕ)) where
  -- The loop over the matches of `url_regex`, each from its first byte to the byte behind it.
  push_links : Text → List (ℕ × ℕ) → List Span → Option (List Span)
  push_links text [] spans = some spans
  push_links text ((start, end) ∷ rest) spans = slice start end text >>= λ url.
      shortened_link url >>= λ html.
      push_links text rest (spans ++ record { start = start; end = end; html = html } ∷ [])

  push_mentions : Text → List Mention → List Span → Option (List Span)
  push_mentions text [] spans = some spans
  push_mentions text (mention ∷ rest) spans =
      found (get_elem? (split_char b'@' mention.acct) 1) (some spans) (λ domain.
        push_word_matches is_alphanumeric text
          (codes "@" ++ (mention.username ++ (codes "@" ++ domain))) (mention_html mention) spans)
      >>= λ more.
          push_word_matches is_alphanumeric text (codes "@" ++ mention.username)
            (mention_html mention) more
          >>= push_mentions text rest

  push_tags : Text → Text → List Tag → List Span → Option (List Span)
  push_tags text instance_domain [] spans = some spans
  push_tags text instance_domain (tag ∷ rest) spans =
      push_word_matches is_alphanumeric text (codes "#" ++ tag.name) (tag_html tag instance_domain)
        spans
      >>= push_tags text instance_domain rest

  unfoldable pub format_local : Text → List Mention → List Tag → Text → Option Text
  unfolding push_links push_mentions push_tags
  format_local text mentions tags instance_domain =
      push_links text (find_iter text) []
      >>= push_mentions text mentions
      >>= push_tags text instance_domain tags
      >>= λ spans. assemble text 0 [] (choose_spans spans) >>= λ out. some (paragraphs out)
