-- ===== src/Format/Escape.antt =====
-- `escape_text` and `escape_attr` of crates/mastodon/src/formatter.rs, and how a browser reads an
-- escaped text back.
use fediway.Prelude.{
  ℕ, zero, suc, ◌≡◌, ◌≢◌, refl, ap, ◌∙◌, [], ◌∷◌, ◌++◌, arith, ◌==◌, if◌then◌else◌, if_cases, All,
  All-append,
}
use fediway.Prelude.Signed.{codes}
use fediway.Format.Characters.{Text, starts_with}

escape_text_char : ℕ → Text
escape_text_char c =
    if c == b'&'
    then codes "&amp;"
    else if c == b'<'
    then codes "&lt;"
    else if c == b'>'
    then codes "&gt;"
    else c ∷ []

escape_attr_char : ℕ → Text
escape_attr_char c =
    if c == b'&'
    then codes "&amp;"
    else if c == b'<'
    then codes "&lt;"
    else if c == b'>'
    then codes "&gt;"
    else if c == b'"'
    then codes "&quot;"
    else c ∷ []

unfoldable pub escape_text : Text → Text
unfolding escape_text_char
escape_text [] = []
escape_text (c ∷ s) = escape_text_char c ++ escape_text s

unfoldable pub escape_attr : Text → Text
unfolding escape_attr_char
escape_attr [] = []
escape_attr (c ∷ s) = escape_attr_char c ++ escape_attr s

-- How HTML reads text, by the character references: the character that stands at the front, and the
-- characters behind it that belong to it.
reference : ℕ → Text → ℕ × ℕ
reference c s =
    if c == b'&'
    then (if starts_with (codes "amp;") s
        then (b'&', 4)
        else if starts_with (codes "lt;") s
        then (b'<', 3)
        else if starts_with (codes "gt;") s
        then (b'>', 3)
        else if starts_with (codes "quot;") s
        then (b'"', 5)
        else (c, 0))
    else (c, 0)

unescape_from : ℕ → Text → Text
unescape_from skip [] = []
unescape_from (suc skip) (c ∷ s) = unescape_from skip s
unescape_from zero (c ∷ s) = let read = reference c s in read.0 ∷ unescape_from read.1 s

unfoldable pub unescape : Text → Text
unfolding unescape_from reference
unescape = unescape_from 0

-- Neither a tag nor a quoted attribute can begin or end at such a character.
abbrev pub IsInert : ℕ → Type 0
IsInert c = (c ≢ b'<') × (c ≢ b'>') × (c ≢ b'"')

abbrev pub IsTagless : ℕ → Type 0
IsTagless c = (c ≢ b'<') × (c ≢ b'>')

-- A character and its escape read back alike, whatever follows.
unescape-escape_attr_char : (c : ℕ) (t : Text) → unescape (escape_attr_char c ++ t) ≡ c ∷ unescape t
unfolding unescape escape_attr_char unescape_from reference
unescape-escape_attr_char c t = ground arith

unescape-escape_text_char : (c : ℕ) (t : Text) → unescape (escape_text_char c ++ t) ≡ c ∷ unescape t
unfolding unescape escape_text_char unescape_from reference
unescape-escape_text_char c t = ground arith

escape_attr_char-All-IsInert : (c : ℕ) → All IsInert (escape_attr_char c)
unfolding escape_attr_char
escape_attr_char-All-IsInert c =
    if_cases (All IsInert) (c == b'&') _ _ (λ _. omega arith)
      (λ _.
        if_cases (All IsInert) (c == b'<') _ _ (λ _. omega arith)
          (λ e.
            if_cases (All IsInert) (c == b'>') _ _ (λ _. omega arith)
              (λ f. if_cases (All IsInert) (c == b'"') _ _ (λ _. omega arith) (λ g. ground arith))))

escape_text_char-All-IsTagless : (c : ℕ) → All IsTagless (escape_text_char c)
unfolding escape_text_char
escape_text_char-All-IsTagless c =
    if_cases (All IsTagless) (c == b'&') _ _ (λ _. omega arith)
      (λ _.
        if_cases (All IsTagless) (c == b'<') _ _ (λ _. omega arith)
          (λ e. if_cases (All IsTagless) (c == b'>') _ _ (λ _. omega arith) (λ f. ground arith)))

unescape-escape_text : (s : Text) → unescape (escape_text s) ≡ s
unfolding escape_text
unescape-escape_text [] = unfold unescape in refl
unescape-escape_text (c ∷ s) =
    unescape-escape_text_char c (escape_text s) ∙ ap (◌∷◌ c) (unescape-escape_text s)

unescape-escape_attr : (s : Text) → unescape (escape_attr s) ≡ s
unfolding escape_attr
unescape-escape_attr [] = unfold unescape in refl
unescape-escape_attr (c ∷ s) =
    unescape-escape_attr_char c (escape_attr s) ∙ ap (◌∷◌ c) (unescape-escape_attr s)

escape_text-All-IsTagless : (s : Text) → All IsTagless (escape_text s)
unfolding escape_text
escape_text-All-IsTagless [] = tt
escape_text-All-IsTagless (c ∷ s) =
    All-append IsTagless (escape_text_char c) (escape_text s) (escape_text_char-All-IsTagless c)
      (escape_text-All-IsTagless s)

escape_attr-All-IsInert : (s : Text) → All IsInert (escape_attr s)
unfolding escape_attr
escape_attr-All-IsInert [] = tt
escape_attr-All-IsInert (c ∷ s) =
    All-append IsInert (escape_attr_char c) (escape_attr s) (escape_attr_char-All-IsInert c)
      (escape_attr-All-IsInert s)

-- An escaped text is read back as it was, and holds nothing that opens or closes a tag, or, in an
-- attribute, the attribute.
pub unescape-escape :
    (s : Text)
    → (unescape (escape_text s) ≡ s)
      × All IsTagless (escape_text s)
      × (unescape (escape_attr s) ≡ s)
      × All IsInert (escape_attr s)
unescape-escape s = (
  unescape-escape_text s,
  escape_text-All-IsTagless s,
  unescape-escape_attr s,
  escape_attr-All-IsInert s,
)
