-- ===== src/Format/Matches/Scan/Places.antt =====
-- Where the words of a text stand.
use fediway.Prelude.{
  ℕ, zero, suc, ◌+◌, ◌≡◌, refl, sym, ap, ◌∙◌, Bool, true, false, ◌&&◌, List, [], ◌∷◌, ◌++◌,
  append_assoc, none, Option, some, arith, ltb, if_cases, All,
}
use fediway.Format.Characters.{Text, size, size-append, starts_with, starts_with-some}
use fediway.Format.Matches.{Span}
use fediway.Format.Matches.Scan.{words, words_from, push_word}
use fediway.Format.Spans.Render.{IsPlace}

push_word-All {κ} :
    (P : Span → Type κ) (is_alphanumeric : ℕ → Bool) (needle html : Text) (hit alone : Bool)
    (place : ℕ) (rest : List Span)
    → (hit ≡ true → P (record { start = place; end = place + size needle; html = html }))
    → All P rest
    → All P (push_word is_alphanumeric needle html (hit && alone) place rest)
push_word-All P is_alphanumeric needle html false alone place rest h k = k
push_word-All P is_alphanumeric needle html true false place rest h k = k
push_word-All P is_alphanumeric needle html true true place rest h k = (h refl, k)

module _ (is_alphanumeric : ℕ → Bool) (needle html text : Text) where
  words_from-All-IsPlace :
      (skip : ℕ) (behind ahead : Text) (before : Option ℕ) {place : ℕ}
      → behind ++ ahead ≡ text
      → size behind ≡ place
      → All (IsPlace text) (words_from is_alphanumeric needle html skip place before ahead)
  unfolding words_from
  words_from-All-IsPlace skip behind [] before e at = tt
  words_from-All-IsPlace (suc skip) behind (c ∷ s) before e at =
      words_from-All-IsPlace skip (behind ++ c ∷ []) s (some c) (append_assoc behind (c ∷ []) s ∙ e)
        (omega (arith, size-append behind (c ∷ [])))
  words_from-All-IsPlace zero behind (c ∷ s) before {place} e at =
      push_word-All (IsPlace text) is_alphanumeric needle html (starts_with needle (c ∷ s)) _ place
        _
        (λ hit.
          let (b, whole) = starts_with-some needle (c ∷ s) hit in
          (behind, needle, b, ap (◌++◌ behind) whole ∙ e, sym at, omega arith))
        (words_from-All-IsPlace _ (behind ++ c ∷ []) s (some c) (append_assoc behind (c ∷ []) s ∙ e)
          (omega (arith, size-append behind (c ∷ []))))

  pub words-All-IsPlace : All (IsPlace text) (words is_alphanumeric needle html text)
  unfolding words
  words-All-IsPlace =
      if_cases (All (IsPlace text)) (ltb (size needle) 2) [] _ (λ _. tt)
        (λ _. words_from-All-IsPlace 0 [] text none refl refl)
