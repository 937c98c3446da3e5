-- ===== src/Format/Matches/Scan.antt =====
-- A reading of `push_word_matches` in one pass over the characters, with no slices and no search.
pub mod Places
pub mod Loop
use fediway.Prelude.{
  ℕ, zero, suc, ◌+◌, ◌-◌, ◌<◌, ◌≡◌, refl, sym, ap, ◌∙◌, inl, inr, Bool, true, false, not, ◌&&◌,
  List, [], ◌∷◌, ◌++◌, append_assoc, append-nil, Option, none, some, arith, ltb, if◌then◌else◌,
  Bool-cases, Option-cases, length, length-append, drop,
}
use fediway.Format.Characters.{
  Text, width, width_pos, size, size-append, split_at-whole, starts_with, starts_with-append,
  starts_with-some, find-nil, further-none, further-some, drop-append, find, first, last, last_or,
  last_or-append,
}
use fediway.Format.Matches.{
  Span, is_some_and, joins_before, joins_after, push_if, word_matches, push_word_matches,
}

module _ (is_alphanumeric : ℕ → Bool) (needle html : Text) where
  -- Is the needle that stands here, behind `before`, a word of its own?
  abbrev stands_alone : Option ℕ → Text → Bool
  stands_alone before s =
      not (is_some_and before (joins_before is_alphanumeric))
      && not (is_some_and (first s) (joins_after is_alphanumeric))

  abbrev push_word : Bool → ℕ → List Span → List Span
  push_word alone place rest =
      if alone
      then record { start = place; end = place + size needle; html = html } ∷ rest
      else rest

  -- `skip` characters of a match are still to pass; `place` bytes lie behind.
  words_from : ℕ → ℕ → Option ℕ → Text → List Span
  words_from skip place before [] = []
  words_from (suc skip) place before (c ∷ s) = words_from skip (place + width c) (some c) s
  words_from zero place before (c ∷ s) =
      let hit = starts_with needle (c ∷ s) in
      let rest = words_from (if hit then length needle - 1 else 0) (place + width c) (some c) s in
      push_word (hit && stands_alone before (drop (length needle) (c ∷ s))) place rest

  unfoldable pub words : Text → List Span
  unfolding words_from
  words text = if ltb (size needle) 2 then [] else words_from 0 0 none text

  words_from-skip :
      (skip c : ℕ) (s : Text) (place : ℕ) (before : Option ℕ)
      → words_from (suc skip) place before (c ∷ s) ≡ words_from skip (place + width c) (some c) s
  unfolding words_from
  words_from-skip skip c s place before = refl

  -- A skipped text only moves the place.
  words_from-append :
      (a b : Text) (place : ℕ) (before : Option ℕ)
      → words_from (length a) place before (a ++ b)
        ≡ words_from 0 (place + size a) (last_or before a) b
  words_from-append [] b place before = ap (λ t. words_from 0 t before b) (omega arith)
  words_from-append (c ∷ a) b place before =
      words_from-skip (length a) c (a ++ b) place before
      ∙ words_from-append a b (place + width c) (some c)
      ∙ ap (λ t. words_from 0 t (last_or (some c) a) b) (omega arith)

  words_from-miss :
      (c : ℕ) (s : Text) (place : ℕ) (before : Option ℕ)
      → starts_with needle (c ∷ s) ≡ false
      → words_from 0 place before (c ∷ s) ≡ words_from 0 (place + width c) (some c) s
  words_from-miss c s place before h = unfold words_from in rw h refl

  words_from-match :
      (c : ℕ) (s rest : Text) (place : ℕ) (before : Option ℕ)
      → starts_with needle (c ∷ s) ≡ true
      → drop (length needle) (c ∷ s) ≡ rest
      → words_from 0 place before (c ∷ s)
        ≡ push_word
            (stands_alone before rest)
            place
            (words_from (length needle - 1) (place + width c) (some c) s)
  words_from-match c s rest place before h e = unfold words_from in rw (h, e) refl

  -- Where the needle is not found, there are no words.
  words_from-none :
      (s : Text) (place : ℕ) (before : Option ℕ)
      → find needle s ≡ none
      → words_from 0 place before s ≡ []
  unfolding find
  words_from-none [] place before h = unfold words_from in refl
  words_from-none (c ∷ s) place before h = elim (Bool-cases (starts_with needle (c ∷ s))) [
    | inl e ↦ ground arith
    | inr e ↦
        words_from-miss c s place before e
        ∙ words_from-none s (place + width c) (some c) (further-none (width c) _ (rw e at h))
  ]

  -- Up to the first needle nothing is pushed.
  words_from-some :
      (s : Text) (place : ℕ) (before : Option ℕ) {i : ℕ}
      → 0 < length needle
      → find needle s ≡ some i
      → (a : Text) × (b : Text) × (a ++ (needle ++ b) ≡ s)
        × (size a ≡ i)
        × (words_from 0 place before s
            ≡ words_from 0 (place + size a) (last_or before a) (needle ++ b))
  unfolding find
  words_from-some [] place before pos h =
      let missed : find needle [] ≡ none = find-nil needle pos in cc
  words_from-some (c ∷ s) place before pos h = elim (Bool-cases (starts_with needle (c ∷ s))) [
    | inl e ↦
        let (b, whole) = starts_with-some needle (c ∷ s) e in
        (
          [],
          b,
          whole,
          ground arith,
          ap (words_from 0 place before) (sym whole)
              ∙ ap (λ t. words_from 0 t before (needle ++ b)) (omega arith),
        )
    | inr e ↦
        let (j, f, sum) = further-some (width c) (find needle s) (rw e at h) in
        let (a, b, whole, at, same) = words_from-some s (place + width c) (some c) pos f in
        (
          c ∷ a,
          b,
          ap (◌∷◌ c) whole,
          omega arith,
          words_from-miss c s place before e
              ∙ same
              ∙ ap (λ t. words_from 0 t (last_or (some c) a) (needle ++ b)) (omega arith),
        )
  ]

-- At a needle one word is pushed, if it stands alone, and the needle is passed.
words_from-hit :
    (is_alphanumeric : ℕ → Bool) (n : ℕ) (ns html : Text) (place : ℕ) (before : Option ℕ) (b : Text)
    → words_from is_alphanumeric (n ∷ ns) html 0 place before ((n ∷ ns) ++ b)
      ≡ push_word is_alphanumeric
          (n ∷ ns)
          html
          (stands_alone is_alphanumeric (n ∷ ns) html before b)
          place
          (words_from is_alphanumeric
            (n ∷ ns)
            html
            0
            (place + size (n ∷ ns))
            (last_or before (n ∷ ns))
            b)
words_from-hit is_alphanumeric n ns html place before b =
    let pass : length (n ∷ ns) - 1 ≡ length ns = omega arith in
    let sum : place + width n + size ns ≡ place + size (n ∷ ns) = omega arith in
    words_from-match is_alphanumeric (n ∷ ns) html n (ns ++ b) b place before
      (starts_with-append (n ∷ ns) b) (drop-append (n ∷ ns) b)
    ∙ rw
        (pass, words_from-append is_alphanumeric (n ∷ ns) html ns b (place + width n) (some n), sum)
        refl
