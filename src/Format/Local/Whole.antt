-- ===== src/Format/Local/Whole.antt =====
-- The whole of `format_local` against what it should link.
use fediway.Prelude.{
  ℕ, ◌+◌, ◌≡◌, refl, sym, ap, ◌∙◌, Bool, List, [], ◌∷◌, ◌++◌, append_assoc, append-nil, Option,
  none, some, map, flatten, All, All-append, get_elem?,
}
use fediway.Prelude.Signed.{codes}
use fediway.Format.Characters.{Text, size, size-append, split_char}
use fediway.Format.Matches.{Span, found, push_word_matches}
use fediway.Format.Matches.Scan.{words}
use fediway.Format.Matches.Scan.Loop.{push_word_matches-eq-words}
use fediway.Format.Matches.Scan.Places.{words-All-IsPlace}
use fediway.Format.Spans.{choose_spans}
use fediway.Format.Spans.Choice.{choose_spans-All, choose_spans-IsChain}
use fediway.Format.Spans.Render.{IsPlace, Rendered, assemble-Rendered, slice-between}
use fediway.Format.Links.{Mention, Tag, shortened_link, mention_html, tag_html}
use fediway.Format.Local.{push_links, push_mentions, push_tags, paragraphs, format_local}

-- The match is a part of the text, and its link can be shortened.
abbrev pub IsLinkable : Text → ℕ × ℕ → Type 0
IsLinkable text (start, end) =
    (a : Text) × (url : Text) × (b : Text) × (html : Text) × (a ++ (url ++ b) ≡ text)
    × (start ≡ size a)
    × (end ≡ size a + size url)
    × (shortened_link url ≡ some html)

abbrev link_spans :
    (text : Text) (matches : List (ℕ × ℕ)) → All (IsLinkable text) matches → List Span
link_spans text [] h = []
link_spans text ((start, end) ∷ rest) ((a, url, b, html, _, _, _, _), h) =
    record { start = start; end = end; html = html } ∷ link_spans text rest h

found-All :
    (text : Text) (domain : Option Text) (f : Text → List Span)
    → ((d : Text) → All (IsPlace text) (f d))
    → All (IsPlace text) (found domain [] f)
found-All text none f h = tt
found-All text (some d) f h = h d

flatten-map-All {ℓ κ μ} :
    {A : Type ℓ} {B : Type κ} (P : B → Type μ) (f : A → List B)
    → ((a : A) → All P (f a))
    → (xs : List A) → All P (flatten (map f xs))
unfolding flatten
flatten-map-All P f h [] = tt
flatten-map-All P f h (x ∷ xs) = All-append P (f x) _ (h x) (flatten-map-All P f h xs)

module _ (is_alphanumeric : ℕ → Bool) (find_iter : Text → List (ℕ × ℕ)) where
  push_links-link_spans :
      (text : Text) (matches : List (ℕ × ℕ)) (h : All (IsLinkable text) matches) (spans : List Span)
      → push_links is_alphanumeric find_iter text matches spans
        ≡ some (spans ++ link_spans text matches h)
  unfolding push_links
  push_links-link_spans text [] h spans = rw append-nil refl
  push_links-link_spans text ((start, end) ∷ rest) ((a, url, b, html, whole, from, to, short), h)
        spans =
      rw
        (
          slice-between a url b text (append_assoc a url b ∙ whole) (sym from)
              (size-append a url ∙ sym to),
          short,
        )
        (push_links-link_spans text rest h
            (spans ++ record { start = start; end = end; html = html } ∷ [])
          ∙ ap some (append_assoc spans _ (link_spans text rest h)))

  -- The words that a mention, or a tag, stands for in the text.
  abbrev mention_words : Text → Mention → List Span
  mention_words text mention =
      found (get_elem? (split_char b'@' mention.acct) 1) [] (λ domain.
        words is_alphanumeric (codes "@" ++ (mention.username ++ (codes "@" ++ domain)))
          (mention_html mention) text)
      ++ words is_alphanumeric (codes "@" ++ mention.username) (mention_html mention) text

  abbrev tag_words : Text → Text → Tag → List Span
  tag_words text instance_domain tag =
      words is_alphanumeric (codes "#" ++ tag.name) (tag_html tag instance_domain) text

  found-words :
      (text username html : Text) (domain : Option Text) (spans : List Span)
      → found domain (some spans) (λ d.
        push_word_matches is_alphanumeric text
          (codes "@" ++ (username ++ (codes "@" ++ d)))
          html
          spans)
        ≡ some (
            spans
            ++ found domain [] (λ d.
              words is_alphanumeric (codes "@" ++ (username ++ (codes "@" ++ d))) html text))
  found-words text username html none spans = rw append-nil refl
  found-words text username html (some d) spans =
      push_word_matches-eq-words is_alphanumeric text _ html spans

  push_mentions-words :
      (text : Text) (mentions : List Mention) (spans : List Span)
      → push_mentions is_alphanumeric find_iter text mentions spans
        ≡ some (spans ++ flatten (map (mention_words text) mentions))
  unfolding push_mentions flatten
  push_mentions-words text [] spans = rw append-nil refl
  push_mentions-words text (mention ∷ rest) spans =
      rw
        (
          found-words text mention.username (mention_html mention)
              (get_elem? (split_char b'@' mention.acct) 1) spans,
          push_word_matches-eq-words is_alphanumeric text (codes "@" ++ mention.username)
              (mention_html mention),
        )
        (push_mentions-words text rest _ ∙ ap some (simp append_assoc))

  push_tags-words :
      (text instance_domain : Text) (tags : List Tag) (spans : List Span)
      → push_tags is_alphanumeric find_iter text instance_domain tags spans
        ≡ some (spans ++ flatten (map (tag_words text instance_domain) tags))
  unfolding push_tags flatten
  push_tags-words text instance_domain [] spans = rw append-nil refl
  push_tags-words text instance_domain (tag ∷ rest) spans =
      rw
        (push_word_matches-eq-words is_alphanumeric text (codes "#" ++ tag.name)
          (tag_html tag instance_domain))
        (push_tags-words text instance_domain rest _ ∙ ap some (append_assoc spans _ _))

  -- All spans that the text calls for: its links, then the mentions, then the tags.
  abbrev pub text_spans :
      (text instance_domain : Text)
      → List Mention
      → List Tag
      → All (IsLinkable text) (find_iter text)
      → List Span
  text_spans text instance_domain mentions tags links =
      (link_spans text (find_iter text) links ++ flatten (map (mention_words text) mentions))
      ++ flatten (map (tag_words text instance_domain) tags)

  link_spans-All-IsPlace :
      (text : Text) (matches : List (ℕ × ℕ)) (h : All (IsLinkable text) matches)
      → All (IsPlace text) (link_spans text matches h)
  link_spans-All-IsPlace text [] h = tt
  link_spans-All-IsPlace text ((start, end) ∷ rest) ((a, url, b, html, whole, from, to, short), h) =
      ((a, url, b, whole, from, to), link_spans-All-IsPlace text rest h)

  mention_words-All-IsPlace :
      (text : Text) (mention : Mention) → All (IsPlace text) (mention_words text mention)
  mention_words-All-IsPlace text mention =
      All-append (IsPlace text) _ _
        (found-All text (get_elem? (split_char b'@' mention.acct) 1) _
          (λ d. words-All-IsPlace is_alphanumeric _ (mention_html mention) text))
        (words-All-IsPlace is_alphanumeric _ (mention_html mention) text)

  text_spans-All-IsPlace :
      (text instance_domain : Text) (mentions : List Mention) (tags : List Tag)
      (links : All (IsLinkable text) (find_iter text))
      → All (IsPlace text) (text_spans text instance_domain mentions tags links)
  text_spans-All-IsPlace text instance_domain mentions tags links =
      All-append (IsPlace text) _ _
        (All-append (IsPlace text) _ _ (link_spans-All-IsPlace text (find_iter text) links) (
          flatten-map-All (IsPlace text) (mention_words text) (mention_words-All-IsPlace text)
            mentions))
        (flatten-map-All (IsPlace text) (tag_words text instance_domain)
          (λ tag. words-All-IsPlace is_alphanumeric _ (tag_html tag instance_domain) text) tags)

  -- Where each link match is a part of the text whose link can be shortened, a local status is formatted
  -- without a panic: the chosen spans of its links, mentions and hashtags are rendered in their places,
  -- everything between them is escaped, and the paragraphs are put around the result.
  pub format_local-Rendered :
      (text instance_domain : Text) (mentions : List Mention) (tags : List Tag)
      (links : All (IsLinkable text) (find_iter text))
      → (out : Text) × (format_local is_alphanumeric find_iter text mentions tags instance_domain
          ≡ some (paragraphs out))
        × Rendered 0 text (choose_spans (text_spans text instance_domain mentions tags links)) out
  unfolding format_local
  format_local-Rendered text instance_domain mentions tags links =
      let spans = text_spans text instance_domain mentions tags links in
      let (out, run, rendered) =
        assemble-Rendered (choose_spans spans) [] text text [] refl refl
          (choose_spans-All (IsPlace text) spans
            (text_spans-All-IsPlace text instance_domain mentions tags links))
          (choose_spans-IsChain spans) in
      (
        out,
        rw
            (
              push_links-link_spans text (find_iter text) links [],
              push_mentions-words text mentions,
              push_tags-words text instance_domain tags,
              run,
            )
            refl,
        rendered,
      )
