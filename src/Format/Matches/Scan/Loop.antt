-- ===== src/Format/Matches/Scan/Loop.antt =====
-- The loop of `push_word_matches` against the one pass over the characters.
use fediway.Prelude.{
  ℕ, zero, suc, ◌+◌, ◌<◌, ◌≡◌, refl, sym, ap, ◌∙◌, inl, inr, Bool, true, false, ◌&&◌, List, [], ◌∷◌,
  ◌++◌, append_assoc, append-nil, none, some, arith, ltb, Bool-cases, Option-cases, length,
  length-append,
}
use fediway.Format.Characters.{
  Text, width_pos, size, size-append, split_at-whole, find, last, last_or, last_or-append,
}
use fediway.Format.Matches.{
  Span, is_some_and, joins_before, push_if, word_matches, push_word_matches,
}
use fediway.Format.Matches.Scan.{
  stands_alone, words, words_from, words_from-hit, words_from-none, words_from-some, push_word,
}

preceded-ltb :
    (p : ℕ → Bool) (left : Text) {start : ℕ}
    → size left ≡ start
    → (ltb 0 start && is_some_and (last left) p) ≡ is_some_and (last left) p
preceded-ltb p [] h = ground arith
preceded-ltb p (c ∷ left) h = ground (arith, width_pos c)

-- One round of the loop, at a needle `a` further on.
word_matches-round :
    (is_alphanumeric : ℕ → Bool) (needle html : Text) (fuel : ℕ) (spans : List Span)
    (behind ahead a b text : Text) {rel : ℕ}
    → behind ++ ahead ≡ text
    → find needle ahead ≡ some rel
    → a ++ (needle ++ b) ≡ ahead
    → size a ≡ rel
    → word_matches is_alphanumeric (suc fuel) text needle html (size behind) spans
      ≡ word_matches is_alphanumeric fuel text needle html (size ((behind ++ a) ++ needle)) (
          push_if is_alphanumeric
            (stands_alone is_alphanumeric needle html (last (behind ++ a)) b)
            (record {
              start = size (behind ++ a);
              end = size (behind ++ a) + size needle;
              html = html;
            })
            spans)
unfolding word_matches
word_matches-round is_alphanumeric needle html fuel spans behind ahead a b text {rel} e f g k =
    let start : size (behind ++ a) ≡ size behind + rel = omega (arith, size-append behind a) in
    let whole : (behind ++ a) ++ (needle ++ b) ≡ text =
      append_assoc behind a (needle ++ b) ∙ ap (◌++◌ behind) g ∙ e in
    rw
      (
        split_at-whole behind ahead e refl,
        f,
        split_at-whole (behind ++ a) (needle ++ b) whole start,
        split_at-whole ((behind ++ a) ++ needle) b (append_assoc (behind ++ a) needle b ∙ whole)
            (size-append (behind ++ a) needle ∙ ap (λ t. t + size needle) start),
        preceded-ltb (joins_before is_alphanumeric) (behind ++ a) start,
        size-append (behind ++ a) needle,
        start,
      )
      refl

push_if-append :
    (is_alphanumeric : ℕ → Bool) (needle html : Text) (alone : Bool) (place : ℕ)
    (spans rest : List Span)
    → push_if is_alphanumeric alone
          (record { start = place; end = place + size needle; html = html })
          spans
        ++ rest
      ≡ spans ++ push_word is_alphanumeric needle html alone place rest
push_if-append is_alphanumeric needle html true place spans rest = append_assoc spans _ rest
push_if-append is_alphanumeric needle html false place spans rest = refl

-- At the needle behind `behind ++ a` the pass pushes what the loop pushes.
words_from-found :
    (is_alphanumeric : ℕ → Bool) (n : ℕ) (ns html behind a b : Text)
    → words_from is_alphanumeric
        (n ∷ ns)
        html
        0
        (size behind + size a)
        (last_or (last behind) a)
        ((n ∷ ns) ++ b)
      ≡ push_word is_alphanumeric
          (n ∷ ns)
          html
          (stands_alone is_alphanumeric (n ∷ ns) html (last (behind ++ a)) b)
          (size (behind ++ a))
          (words_from is_alphanumeric
            (n ∷ ns)
            html
            0
            (size ((behind ++ a) ++ (n ∷ ns)))
            (last ((behind ++ a) ++ (n ∷ ns)))
            b)
words_from-found is_alphanumeric n ns html behind a b =
    rw
      (
        size-append (behind ++ a) (n ∷ ns),
        last_or-append none (behind ++ a) (n ∷ ns),
        size-append behind a,
        last_or-append none behind a,
      )
      (words_from-hit is_alphanumeric n ns html (size behind + size a) (last_or (last behind) a) b)

-- The loop pushes the words of the text that lies ahead.
word_matches_lem :
    (is_alphanumeric : ℕ → Bool) (n : ℕ) (ns html : Text) (fuel : ℕ) (behind ahead : Text)
    (text : Text) (spans : List Span)
    → behind ++ ahead ≡ text
    → length ahead < fuel
    → word_matches is_alphanumeric fuel text (n ∷ ns) html (size behind) spans
      ≡ some (spans ++ words_from is_alphanumeric (n ∷ ns) html 0 (size behind) (last behind) ahead)
word_matches_lem is_alphanumeric n ns html zero behind ahead text spans e h = absurd (omega arith)
word_matches_lem is_alphanumeric n ns html (suc fuel) behind ahead text spans e h =
    elim (Option-cases (find (n ∷ ns) ahead)) [
      | inl f ↦
          unfold word_matches in
          rw
            (
              split_at-whole behind ahead e refl,
              f,
              words_from-none is_alphanumeric (n ∷ ns) html ahead (size behind) (last behind) f,
              append-nil spans,
            )
            refl
      | inr (rel, f) ↦
          let (a, b, whole, at, same) =
            words_from-some is_alphanumeric (n ∷ ns) html ahead (size behind) (last behind)
              (omega arith) f in
          let fewer : length b < fuel =
            omega
              (arith, ap length whole, length-append a ((n ∷ ns) ++ b), length-append (n ∷ ns) b) in
          let next : ((behind ++ a) ++ (n ∷ ns)) ++ b ≡ text =
            append_assoc (behind ++ a) (n ∷ ns) b
            ∙ append_assoc behind a ((n ∷ ns) ++ b)
            ∙ ap (◌++◌ behind) whole
            ∙ e in
          word_matches-round is_alphanumeric (n ∷ ns) html fuel spans behind ahead a b text e f
            whole at
          ∙ word_matches_lem is_alphanumeric n ns html fuel ((behind ++ a) ++ (n ∷ ns)) b text _
              next fewer
          ∙ ap some (
              push_if-append is_alphanumeric (n ∷ ns) html
                (stands_alone is_alphanumeric (n ∷ ns) html (last (behind ++ a)) b)
                (size (behind ++ a)) spans _
              ∙ ap (◌++◌ spans)
                  (sym (words_from-found is_alphanumeric n ns html behind a b) ∙ sym same))
    ]

-- `push_word_matches` pushes exactly the words that one pass over the text finds, in the same order.
pub push_word_matches-eq-words :
    (is_alphanumeric : ℕ → Bool) (text needle html : Text) (spans : List Span)
    → push_word_matches is_alphanumeric text needle html spans
      ≡ some (spans ++ words is_alphanumeric needle html text)
unfolding push_word_matches words
push_word_matches-eq-words is_alphanumeric text [] html spans = rw append-nil refl
push_word_matches-eq-words is_alphanumeric text (n ∷ ns) html spans =
    elim (Bool-cases (ltb (size (n ∷ ns)) 2)) [
      | inl e ↦ rw (e, append-nil spans) refl
      | inr e ↦ rw e (
          word_matches_lem is_alphanumeric n ns html (suc (length text)) [] text text spans refl
            (omega arith))
    ]
