-- ===== src/Format/Local/Lines.antt =====
-- The lines and paragraphs of `format_local`.
use fediway.Prelude.{
  ℕ, ◌≡◌, ◌≢◌, refl, ap, ◌∙◌, true, false, not, ◌&&◌, List, [], ◌∷◌, ◌++◌, arith, ◌==◌, if_cases,
  is_empty, map, filter, flatten, All, All-append,
}
use fediway.Prelude.Signed.{codes}
use fediway.Format.Characters.{Text, extend, replace_char}
use fediway.Format.Local.{split_blank, paragraph, paragraphs}

-- The parts with an empty line between each two.
abbrev join_blank : List Text → Text
join_blank [] = []
join_blank (p ∷ []) = p
join_blank (p ∷ q ∷ parts) = p ++ (codes "\n\n" ++ join_blank (q ∷ parts))

join_blank-extend : (c : ℕ) (parts : List Text) → join_blank (extend c parts) ≡ c ∷ join_blank parts
join_blank-extend c [] = refl
join_blank-extend c (p ∷ []) = refl
join_blank-extend c (p ∷ q ∷ parts) = refl

join_blank-nil :
    (parts : List Text)
    → is_empty parts ≡ false
    → join_blank ([] ∷ parts) ≡ codes "\n\n" ++ join_blank parts
join_blank-nil [] h = cc
join_blank-nil (p ∷ parts) h = refl

is_empty-extend : (c : ℕ) (parts : List Text) → is_empty (extend c parts) ≡ false
is_empty-extend c [] = refl
is_empty-extend c (p ∷ parts) = refl

is_empty-split_blank : (s : Text) → is_empty (split_blank s) ≡ false
unfolding split_blank
is_empty-split_blank [] = refl
is_empty-split_blank (c ∷ []) = refl
is_empty-split_blank (c ∷ d ∷ s) =
    if_cases {A = List Text} (λ parts. is_empty parts ≡ false) (c == b'\n' && d == b'\n') _ _
      (λ _. refl) (λ _. is_empty-extend c (split_blank (d ∷ s)))

both-newline : (c d : ℕ) → (c == b'\n' && d == b'\n') ≡ true → (c ≡ b'\n') × (d ≡ b'\n')
both-newline c d h = (ground arith, ground arith)

join_blank-split_blank : (s : Text) → join_blank (split_blank s) ≡ s
unfolding split_blank
join_blank-split_blank [] = refl
join_blank-split_blank (c ∷ []) = refl
join_blank-split_blank (c ∷ d ∷ s) =
    let whole = join_blank-split_blank s in
    let longer = join_blank-split_blank (d ∷ s) in
    if_cases {A = List Text} (λ parts. join_blank parts ≡ c ∷ d ∷ s) (c == b'\n' && d == b'\n') _ _
      (λ h.
        let (first, second) = both-newline c d h in
        join_blank-nil (split_blank s) (is_empty-split_blank s) ∙ rw (first, second, whole) refl)
      (λ _. join_blank-extend c (split_blank (d ∷ s)) ∙ ap (◌∷◌ c) longer)

abbrev IsInline : ℕ → Type 0
IsInline c = c ≢ b'\n'

replace_char-IsInline : (s : Text) → All IsInline (replace_char b'\n' (codes "<br />") s)
unfolding replace_char
replace_char-IsInline [] = tt
replace_char-IsInline (c ∷ s) =
    let rest = replace_char-IsInline s in
    if_cases (All IsInline) (c == b'\n') _ _
      (λ _. All-append IsInline (codes "<br />") _ (omega arith) rest) (λ h. (ground arith, rest))

flatten-paragraph-IsInline : (parts : List Text) → All IsInline (flatten (map paragraph parts))
unfolding flatten
flatten-paragraph-IsInline [] = tt
flatten-paragraph-IsInline (p ∷ parts) =
    All-append IsInline (paragraph p) _
      (All-append IsInline (codes "<p>") _ (omega arith)
        (All-append IsInline _ (codes "</p>") (replace_char-IsInline p) (omega arith)))
      (flatten-paragraph-IsInline parts)

-- The parts that `paragraphs` wraps are those between the empty lines of the text, and no line break
-- of the text is left in the result.
pub paragraphs-IsInline :
    (out : Text) → (join_blank (split_blank out) ≡ out) × All IsInline (paragraphs out)
unfolding paragraphs
paragraphs-IsInline out = (
  join_blank-split_blank out,
  if_cases (All IsInline)
      (is_empty (map paragraph (filter (λ p. not (is_empty p)) (split_blank out)))) _ _
      (λ _. omega arith)
      (λ _. flatten-paragraph-IsInline (filter (λ p. not (is_empty p)) (split_blank out))),
)
