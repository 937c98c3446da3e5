-- ===== src/Format/Matches.antt =====
-- `push_word_matches` of crates/mastodon/src/formatter.rs: the places of a mention or a hashtag that
-- stand as words of their own. The Unicode class of letters and digits is a parameter.
pub mod Scan
use fediway.Prelude.{
  ℕ, zero, suc, ◌+◌, ◌-◌, Bool, false, not, ◌&&◌, ◌||◌, List, [], ◌∷◌, ◌++◌, Option, none, some,
  ◌>>=◌, ltb, ◌==◌, if◌then◌else◌, length, drop,
}
use fediway.Format.Characters.{
  Text, width, size, slice_to, slice_from, starts_with, find, first, last,
}

-- Where a piece of HTML replaces the text, in bytes.
pub record Span : Type 0 where
  pub start : ℕ
  pub end : ℕ
  pub html : Text

-- `Option::is_some_and`
abbrev pub is_some_and {ℓ} : {A : Type ℓ} → Option A → (A → Bool) → Bool
is_some_and none p = false
is_some_and (some a) p = p a

abbrev pub found {ℓ κ} : {A : Type ℓ} {B : Type κ} → Option A → B → (A → B) → B
found none b f = b
found (some a) b f = f a

module _ (is_alphanumeric : ℕ → Bool) where
  abbrev pub joins_before : ℕ → Bool
  joins_before c = is_alphanumeric c || c == b'_' || c == b'@' || c == b'#'

  abbrev pub joins_after : ℕ → Bool
  joins_after c = is_alphanumeric c || c == b'_' || c == b'@'

  abbrev pub push_if : Bool → Span → List Span → List Span
  push_if b span spans = if b then spans ++ span ∷ [] else spans

  -- The loop. `none` is a panic of a slice, or fuel that ran out.
  word_matches : ℕ → Text → Text → Text → ℕ → List Span → Option (List Span)
  word_matches zero text needle html search_from spans = none
  word_matches (suc fuel) text needle html search_from spans =
      slice_from search_from text >>= λ ahead. found (find needle ahead) (some spans) λ rel.
        let start = search_from + rel in
        let end = start + size needle in
        slice_to start text >>= λ left. slice_from end text >>= λ right.
        let preceded_by_word = ltb 0 start && is_some_and (last left) joins_before in
        let followed_by_word = is_some_and (first right) joins_after in
        word_matches fuel text needle html end (
          push_if (not preceded_by_word && not followed_by_word)
            (record { start = start; end = end; html = html }) spans)

  unfoldable pub push_word_matches : Text → Text → Text → List Span → Option (List Span)
  unfolding word_matches
  push_word_matches text needle html spans =
      if ltb (size needle) 2
      then some spans
      else word_matches (suc (length text)) text needle html 0 spans
