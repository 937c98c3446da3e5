-- ===== src/Format/Spans.antt =====
-- The middle of `format_local` in crates/mastodon/src/formatter.rs: spans are sorted, those that
-- overlap an earlier one are dropped, and the text is put together around the rest.
pub mod Choice
pub mod Render
use fediway.Prelude.{
  ℕ, Bool, true, ◌&&◌, ◌||◌, List, [], ◌∷◌, ◌++◌, Option, none, some, ◌>>=◌, ltb, leb, ◌==◌,
  if◌then◌else◌,
}
use fediway.Prelude.Sort.{sort_by}
use fediway.Format.Characters.{Text, slice, slice_from}
use fediway.Format.Escape.{escape_text}
use fediway.Format.Matches.{Span}

-- `(start, Reverse(end))` of one span is at most that of the other.
abbrev pub by_place : Span → Span → Bool
by_place s t = ltb s.start t.start || (s.start == t.start && leb t.end s.end)

abbrev pub last_span : List Span → Option Span
last_span [] = none
last_span (s ∷ []) = some s
last_span (s ∷ t ∷ spans) = last_span (t ∷ spans)

-- `Option::is_none_or`
abbrev pub is_none_or {ℓ} : {A : Type ℓ} → Option A → (A → Bool) → Bool
is_none_or none p = true
is_none_or (some a) p = p a

-- The loop that fills `non_overlapping`.
non_overlapping : List Span → List Span → List Span
non_overlapping kept [] = kept
non_overlapping kept (span ∷ spans) =
    non_overlapping
      (if is_none_or (last_span kept) (λ last. leb last.end span.start)
        then kept ++ span ∷ []
        else kept)
      spans

unfoldable pub choose_spans : List Span → List Span
unfolding non_overlapping
choose_spans spans = non_overlapping [] (sort_by by_place spans)

-- The loop over the chosen spans, `none` where a slice panics.
unfoldable pub assemble : Text → ℕ → Text → List Span → Option Text
assemble text cursor out [] = slice_from cursor text >>= λ rest. some (out ++ escape_text rest)
assemble text cursor out (span ∷ spans) = slice cursor span.start text >>= λ plain.
    assemble text span.end ((out ++ escape_text plain) ++ span.html) spans
