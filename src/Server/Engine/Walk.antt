-- ===== src/Server/Engine/Walk.antt =====
-- Following the cursor from page to page.
use fediway.Prelude.{
  ℕ, zero, suc, ◌+◌, ◌-◌, ◌≤◌, ◌<◌, min, ◌≡◌, refl, ap, sym, ◌∙◌, inl, inr, Option, none, some,
  List, [], ◌∷◌, ◌++◌, arith, append-nil, length, length-drop, take, drop, take-append-drop, ltb,
  ltb→lt, Bool-cases,
}
use fediway.Prelude.Decimal.{Text, usize_values, to_string, parse_usize-to_string}
use fediway.Server.Engine.{saturating_add, offset_of, paginate}

module _ {ℓ} {A : Type ℓ} where
  -- All items that a client receives who asks for a page and follows each cursor it is given, at most
  -- `fuel` times; each of its requests has a limit of its own.
  unfoldable pub walk : ℕ → List A → Option Text → (ℕ → ℕ) → List A
  walk zero items cursor limits = []
  walk (suc fuel) items cursor limits =
      let page = paginate items cursor (limits 0) in
      let next = λ (c : Text). walk fuel items (some c) (λ n. limits (suc n)) in
      page.items ++ elim page.cursor [ none ↦ [] | some c ↦ next c ]

  take_all : (n : ℕ) (xs : List A) → length xs ≤ n → take n xs ≡ xs
  take_all zero [] h = refl
  take_all zero (x ∷ xs) h = absurd (omega arith)
  take_all (suc n) [] h = refl
  take_all (suc n) (x ∷ xs) h = ap (◌∷◌ x) (take_all n xs (omega arith))

  drop-nil : (n : ℕ) → drop {A = A} n [] ≡ []
  drop-nil zero = refl
  drop-nil (suc n) = refl

  drop-drop : (m n k : ℕ) (xs : List A) → m + n ≡ k → drop n (drop m xs) ≡ drop k xs
  drop-drop zero n k xs e = ap (λ j. drop j xs) (omega arith)
  drop-drop (suc m) n k [] e = drop-nil n ∙ sym (drop-nil k)
  drop-drop (suc m) n zero (x ∷ xs) e = absurd (omega arith)
  drop-drop (suc m) n (suc k) (x ∷ xs) e = drop-drop m n k xs (omega arith)

  -- The pages from a cursor on, put together, are the items from its offset on.
  walk-drop :
      (fuel : ℕ) (items : List A) (cursor : Option Text) (limits : ℕ → ℕ)
      → ((n : ℕ) → 0 < limits n)
      → length items < usize_values
      → length items < offset_of cursor (length items) + fuel
      → walk fuel items cursor limits ≡ drop (offset_of cursor (length items)) items
  unfolding walk paginate
  walk-drop zero items cursor limits h k m = absurd (omega arith)
  walk-drop (suc fuel) items cursor limits h k m =
      let len : ℕ = length items in
      let from : ℕ = offset_of cursor len in
      let end : ℕ = min (saturating_add from (limits 0)) len in
      elim (Bool-cases (ltb end len)) [
        | inl e ↦
            let more : end < len = ltb→lt end len e in
            let next : offset_of (some (to_string end)) len ≡ end =
              rw (parse_usize-to_string end (omega arith)) (omega arith) in
            let rest : walk fuel items (some (to_string end)) (λ n. limits (suc n))
                ≡ drop end items =
              walk-drop fuel items (some (to_string end)) (λ n. limits (suc n)) (λ n. h (suc n)) k
                (omega (arith, next))
              ∙ ap (λ j. drop j items) next in
            rw (e, rest)
              (ap (◌++◌ (take (end - from) (drop from items)))
                  (sym (drop-drop from (end - from) end items (omega arith)))
                ∙ take-append-drop (end - from) (drop from items))
        | inr e ↦
            let last : len ≤ end = ground arith in
            rw e (
              append-nil _
              ∙ take_all (end - from) (drop from items) (omega (arith, length-drop from items)))
      ]

  -- A client that follows the cursors from the first page on, with a positive limit in each of its
  -- requests, receives every item once and in order, after at most one page for each item and one more,
  -- where the number of items is a `usize`.
  pub walk_all :
      (items : List A) (limits : ℕ → ℕ)
      → ((n : ℕ) → 0 < limits n)
      → length items < usize_values
      → walk (suc (length items)) items none limits ≡ items
  walk_all items limits h k =
      let start : offset_of none (length items) ≡ 0 = omega arith in
      walk-drop (suc (length items)) items none limits h k (omega arith)
      ∙ ap (λ j. drop j items) start
