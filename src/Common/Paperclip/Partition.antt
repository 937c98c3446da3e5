-- ===== src/Common/Paperclip/Partition.antt =====
-- Reading the paths of crates/common/src/paperclip.rs back.
use fediway.Prelude.{
  ℕ, zero, suc, ◌-◌, ◌≤◌, ◌<◌, min, ◌≡◌, refl, ap, sym, ◌∙◌, Bool, true, not, ◌==◌, List, [], ◌∷◌,
  ◌++◌, length, take, filter, All, All-append, length-append, arith,
}
use fediway.Prelude.Decimal.{Text, to_string}
use fediway.Prelude.Decimal.Digits.{
  value_from, IsDigit, power_of_ten, value_from-to_string, to_string-IsDigit, length-to_string,
}
use fediway.Common.Paperclip.{zeros, padded, partitioned, id_partition}

abbrev no_slash : ℕ → Bool
no_slash c = not (c == b'/')

filter-partitioned : (s : Text) → filter no_slash (partitioned s) ≡ filter no_slash s
filter-partitioned (a ∷ b ∷ c ∷ d ∷ rest) = ground (arith, filter-partitioned (d ∷ rest))
filter-partitioned (a ∷ b ∷ c ∷ []) = refl
filter-partitioned (a ∷ b ∷ []) = refl
filter-partitioned (a ∷ []) = refl
filter-partitioned [] = refl

filter-digits : (s : Text) → All IsDigit s → filter no_slash s ≡ s
filter-digits [] h = refl
filter-digits (c ∷ cs) h =
    let digit : no_slash c ≡ true = ground (arith, h.0) in rw (digit, filter-digits cs h.1) refl

zeros-IsDigit : (n : ℕ) → All IsDigit (zeros n)
zeros-IsDigit zero = tt
zeros-IsDigit (suc n) = ((omega arith, omega arith), zeros-IsDigit n)

value_from-zeros : (n : ℕ) (s : Text) → value_from 0 (zeros n ++ s) ≡ value_from 0 s
value_from-zeros zero s = refl
value_from-zeros (suc n) s = value_from-zeros n s

length-zeros : (n : ℕ) → length (zeros n) ≡ n
length-zeros zero = refl
length-zeros (suc n) = ap suc (length-zeros n)

take_all {ℓ} : {A : Type ℓ} (n : ℕ) (xs : List A) → length xs ≤ n → take n xs ≡ xs
take_all zero [] h = refl
take_all zero (x ∷ xs) h = elim h [ ]
take_all (suc n) [] h = refl
take_all (suc n) (x ∷ xs) h = ap (◌∷◌ x) (take_all n xs (omega arith))

padded-IsDigit : (id : ℕ) → All IsDigit (padded id)
unfolding padded
padded-IsDigit id =
    All-append IsDigit (zeros (9 - length (to_string id))) (to_string id)
      (zeros-IsDigit (9 - length (to_string id))) (to_string-IsDigit id)

value_from-padded : (id : ℕ) → value_from 0 (padded id) ≡ id
unfolding padded
value_from-padded id =
    value_from-zeros (9 - length (to_string id)) (to_string id) ∙ value_from-to_string id

length-padded : (id : ℕ) → id < power_of_ten 18 → length (padded id) ≤ 18
unfolding padded
length-padded id h =
    let s = to_string id in
    omega (
      arith,
      length-append (zeros (9 - length s)) s,
      length-zeros (9 - length s),
      length-to_string id 17 h,
    )

-- The digits of the path, read without the slashes, are the identifier.
value_from-id_partition :
    (id : ℕ) → id < power_of_ten 18 → value_from 0 (filter no_slash (id_partition id)) ≡ id
unfolding id_partition
value_from-id_partition id h =
    let s = padded id in
    let whole : take (min (length s) 18) s ≡ s =
      take_all (min (length s) 18) s (omega (arith, length-padded id h)) in
    ap (λ t. value_from 0 (filter no_slash (partitioned t))) whole
    ∙ ap (value_from 0) (filter-partitioned s)
    ∙ ap (value_from 0) (filter-digits s (padded-IsDigit id))
    ∙ value_from-padded id

-- Identifiers of up to 18 digits have different paths: the padding and the split into groups of three
-- lose nothing.
id_partition-inj :
    (a b : ℕ) → a < power_of_ten 18 → b < power_of_ten 18 → id_partition a ≡ id_partition b → a ≡ b
id_partition-inj a b h k e =
    sym (value_from-id_partition a h)
    ∙ ap (λ t. value_from 0 (filter no_slash t)) e
    ∙ value_from-id_partition b k
