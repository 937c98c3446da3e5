-- ===== src/Format/Spans/Render.antt =====
-- What `format_local` puts together: the chosen spans' HTML, and the rest of the text escaped.
use fediway.Prelude.{
  ℕ, ◌+◌, ◌≡◌, refl, sym, ap, ◌∙◌, List, [], ◌∷◌, ◌++◌, append_assoc, some, arith, All,
}
use fediway.Format.Characters.{Text, size, size-append, append-between, slice, split_at-whole}
use fediway.Format.Escape.{escape_text}
use fediway.Format.Matches.{Span}
use fediway.Format.Spans.{assemble}
use fediway.Format.Spans.Choice.{IsChain}

-- The span cuts the text into three parts and covers the middle one.
abbrev pub IsPlace : Text → Span → Type 0
IsPlace text s =
    (a : Text) × (m : Text) × (b : Text) × (a ++ (m ++ b) ≡ text)
    × (s.start ≡ size a)
    × (s.end ≡ size a + size m)

-- `Rendered place text spans out`: the text that begins at byte `place`, with the spans that lie in
-- it, reads `out`.
pub data Rendered : ℕ → Text → List Span → Text → Type 0 where
  plain_text : (place : ℕ) (text : Text) → Rendered place text [] (escape_text text)
  linked :
      {place : ℕ} (span : Span) (plain covered ahead : Text) {spans : List Span}
      {text out whole : Text}
      → span.start ≡ place + size plain
      → span.end ≡ span.start + size covered
      → text ≡ plain ++ (covered ++ ahead)
      → whole ≡ escape_text plain ++ (span.html ++ out)
      → Rendered span.end ahead spans out
      → Rendered place text (span ∷ spans) whole

-- `&text[cursor..start]`, behind what is done.
pub slice-between :
    (behind plain ahead text : Text) {cursor start : ℕ}
    → (behind ++ plain) ++ ahead ≡ text
    → size behind ≡ cursor
    → size (behind ++ plain) ≡ start
    → slice cursor start text ≡ some plain
slice-between behind plain ahead text e f g =
    rw (split_at-whole (behind ++ plain) ahead e g, split_at-whole behind plain refl f) refl

assemble-linked :
    (s : Span) (spans : List Span) (plain text out html : Text) (cursor : ℕ)
    → slice cursor s.start text ≡ some plain
    → assemble text s.end ((out ++ escape_text plain) ++ s.html) spans
      ≡ some (((out ++ escape_text plain) ++ s.html) ++ html)
    → assemble text cursor out (s ∷ spans) ≡ some (out ++ (escape_text plain ++ (s.html ++ html)))
unfolding assemble
assemble-linked s spans plain text out html cursor e run =
    rw
      (
        e,
        run,
        append_assoc (out ++ escape_text plain) s.html html,
        append_assoc out (escape_text plain) (s.html ++ html),
      )
      refl

-- Spans that follow each other in the text are rendered, and no slice panics.
pub assemble-Rendered :
    (spans : List Span) (behind ahead text out : Text) {place : ℕ}
    → behind ++ ahead ≡ text
    → size behind ≡ place
    → All (IsPlace text) spans
    → IsChain place spans
    → (html : Text) × (assemble text place out spans ≡ some (out ++ html))
      × Rendered place ahead spans html
assemble-Rendered [] behind ahead text out {place} e at places chain = (
  escape_text ahead,
  unfold assemble in rw (split_at-whole behind ahead e at) refl,
  plain_text place ahead,
)
assemble-Rendered (s ∷ spans) behind ahead text out {place} e at
      ((a, m, b, whole, start, end), places) (lower, chain) =
    let (p, left, right) = append-between behind ahead a (m ++ b) (e ∙ sym whole) (omega arith) in
    let (html, run, rendered) =
      assemble-Rendered spans (a ++ m) b text ((out ++ escape_text p) ++ s.html)
        (append_assoc a m b ∙ whole) (omega (arith, size-append a m)) places chain in
    (
      escape_text p ++ (s.html ++ html),
      assemble-linked s spans p text out html place
          (slice-between behind p (m ++ b) text (rw left whole) at (ap size left ∙ sym start)) run,
      linked s p m b (omega (arith, size-append behind p, ap size left)) (omega arith) right refl
          rendered,
    )
