-- ===== src/Format/Characters.antt =====
-- What formatter.rs uses of the standard library's `str`: lengths in bytes, slices that panic off a
-- character boundary, `find`, `split` and `starts_with`.
use fediway.Prelude.{
  ℕ, zero, suc, ◌+◌, ◌-◌, ◌≤◌, ◌<◌, ◌≡◌, ◌↔◌, refl, ap, inl, inr, Bool, true, false, ◌&&◌, List, [],
  ◌∷◌, ◌++◌, Option, none, some, ◌>>=◌, arith, ltb, ◌==◌, ==_iff, if◌then◌else◌, is_empty, length,
  drop, Bool-cases, Option-cases,
}
use fediway.Prelude.Map.{Eq}

abbrev pub Text : Type 0
Text = List ℕ

-- `char::len_utf8`
abbrev pub width : ℕ → ℕ
width c = if ltb c 128 then 1 else if ltb c 2048 then 2 else if ltb c 65536 then 3 else 4

-- `str::len`
abbrev pub size : Text → ℕ
size [] = 0
size (c ∷ s) = width c + size s

abbrev keep {ℓ} : {B : Type ℓ} → ℕ → Option (Text × B) → Option (Text × B)
keep c none = none
keep c (some (a, b)) = some (c ∷ a, b)

-- `str::split_at`, `none` where it panics: past the end, or inside a character.
unfoldable pub split_at : ℕ → Text → Option (Text × Text)
split_at n [] = if n == 0 then some ([], []) else none
split_at n (c ∷ s) =
    let rest = split_at (n - width c) s in
    if n == 0 then some ([], c ∷ s) else if ltb n (width c) then none else keep c rest

-- `&s[..n]` and `&s[n..]`
abbrev pub slice_to : ℕ → Text → Option Text
slice_to n s = split_at n s >>= λ halves. some halves.0

abbrev pub slice_from : ℕ → Text → Option Text
slice_from n s = split_at n s >>= λ halves. some halves.1

-- `&s[a..b]`
abbrev pub slice : ℕ → ℕ → Text → Option Text
slice a b s = slice_to b s >>= slice_from a

abbrev pub starts_with : Text → Text → Bool
starts_with [] s = true
starts_with (n ∷ needle) [] = false
starts_with (n ∷ needle) (c ∷ s) = n == c && starts_with needle s

abbrev further : ℕ → Option ℕ → Option ℕ
further w none = none
further w (some i) = some (w + i)

-- `str::find` of a text.
unfoldable pub find : Text → Text → Option ℕ
find needle [] = if is_empty needle then some 0 else none
find needle (c ∷ s) =
    let rest = find needle s in
    if starts_with needle (c ∷ s) then some 0 else further (width c) rest

-- The first and the last character, if there is one.
abbrev pub first : Text → Option ℕ
first [] = none
first (c ∷ s) = some c

abbrev pub last_or : Option ℕ → Text → Option ℕ
last_or before [] = before
last_or before (c ∷ s) = last_or (some c) s

abbrev pub last : Text → Option ℕ
last = last_or none

abbrev pub extend {ℓ} : {A : Type ℓ} → A → List (List A) → List (List A)
extend c [] = (c ∷ []) ∷ []
extend c (part ∷ parts) = (c ∷ part) ∷ parts

-- `str::split` at a character: always one part at least.
unfoldable pub split_char : ℕ → Text → List Text
split_char at [] = [] ∷ []
split_char at (c ∷ s) =
    let parts = split_char at s in if c == at then [] ∷ parts else extend c parts

-- `str::replace` of a character by a text.
unfoldable pub replace_char : ℕ → Text → Text → Text
replace_char at new [] = []
replace_char at new (c ∷ s) =
    let rest = replace_char at new s in if c == at then new ++ rest else c ∷ rest

replace_from : Text → Text → ℕ → Text → Text
replace_from needle new skip [] = []
replace_from needle new (suc skip) (c ∷ s) = replace_from needle new skip s
replace_from needle new zero (c ∷ s) =
    let hit = starts_with needle (c ∷ s) in
    let rest = replace_from needle new (if hit then length needle - 1 else 0) s in
    if hit then new ++ rest else c ∷ rest

-- `str::replace` of a text that is not empty.
unfoldable pub replace_text : Text → Text → Text → Text
unfolding replace_from
replace_text needle new = replace_from needle new 0

-- `str::trim_start_matches` of a character.
abbrev pub trim_start : ℕ → Text → Text
trim_start at [] = []
trim_start at (c ∷ s) = if c == at then trim_start at s else c ∷ s

pub last_or-append : (p : Option ℕ) (a b : Text) → last_or p (a ++ b) ≡ last_or (last_or p a) b
last_or-append p [] b = refl
last_or-append p (c ∷ a) b = last_or-append (some c) a b

pub width_pos : (c : ℕ) → 0 < width c
width_pos c = ground arith

pub size-append : (a b : Text) → size (a ++ b) ≡ size a + size b
size-append [] b = omega arith
size-append (c ∷ a) b = omega (arith, size-append a b)

-- A split that does not panic cuts the text in two, at the byte asked for.
pub split_at-some :
    (n : ℕ) (s : Text) {a b : Text} → split_at n s ≡ some (a, b) → (a ++ b ≡ s) × (size a ≡ n)
unfolding split_at
split_at-some n [] h = ground arith
split_at-some n (c ∷ s) h = elim (Option-cases (split_at (n - width c) s)) [
  | inl e ↦ ground arith
  | inr ((x, y), e) ↦ ground (arith, split_at-some (n - width c) s e)
]

-- A text splits where one part of it ends.
pub split_at-append : (a b : Text) → split_at (size a) (a ++ b) ≡ some (a, b)
unfolding split_at
split_at-append [] [] = refl
split_at-append [] (c ∷ b) = refl
split_at-append (c ∷ a) b =
    let back : width c + size a - width c ≡ size a = omega arith in
    ground (arith, width_pos c, rw (← back) at (split_at-append a b))

pub starts_with-some :
    (needle s : Text) → starts_with needle s ≡ true → (b : Text) × (needle ++ b ≡ s)
starts_with-some [] s h = (s, refl)
starts_with-some (n ∷ needle) [] h = cc
starts_with-some (n ∷ needle) (c ∷ s) h = elim (Bool-cases (n == c)) [
  | inl e ↦
      let (b, rest) = starts_with-some needle s (rw e at h) in
      let same : n ≡ c = (==_iff n c).0 e in (b, cc)
  | inr e ↦ ground arith
]

-- What `find` returns is a place of the needle.
pub find-some :
    (needle s : Text) {i : ℕ}
    → find needle s ≡ some i
    → (a : Text) × (b : Text) × (a ++ (needle ++ b) ≡ s) × (size a ≡ i)
unfolding find
find-some [] [] h = ([], [], refl, ground arith)
find-some (n ∷ needle) [] h = cc
find-some needle (c ∷ s) h = elim (Bool-cases (starts_with needle (c ∷ s))) [
  | inl e ↦ let (b, whole) = starts_with-some needle (c ∷ s) e in ([], b, whole, ground arith)
  | inr e ↦ elim (Option-cases (find needle s)) [
    | inl f ↦ absurd (ground arith)
    | inr (j, f) ↦
        let (a, b, whole, at) = find-some needle s f in (c ∷ a, b, ap (◌∷◌ c) whole, ground arith)
  ]
]

pub starts_with-append : (needle b : Text) → starts_with needle (needle ++ b) ≡ true
starts_with-append [] b = refl
starts_with-append (n ∷ needle) b = ground (arith, starts_with-append needle b)

pub drop-append : (a b : Text) → drop (length a) (a ++ b) ≡ b
drop-append [] b = refl
drop-append (c ∷ a) b = drop-append a b

pub further-none : (w : ℕ) (o : Option ℕ) → further w o ≡ none → o ≡ none
further-none w none h = refl
further-none w (some i) h = cc

pub further-some :
    (w : ℕ) (o : Option ℕ) {k : ℕ} → further w o ≡ some k → (i : ℕ) × (o ≡ some i) × (w + i ≡ k)
further-some w none h = cc
further-some w (some i) h = (i, refl, ground arith)

pub find-nil : (needle : Text) → 0 < length needle → find needle [] ≡ none
unfolding find
find-nil [] h = absurd (omega arith)
find-nil (n ∷ needle) h = refl

pub split_at-whole :
    (a b : Text) {s : Text} {n : ℕ} → a ++ b ≡ s → size a ≡ n → split_at n s ≡ some (a, b)
split_at-whole a b e f = rw (← e, ← f) (split_at-append a b)

-- Of two ways to cut a text, the earlier cut falls into the first part of the later one.
pub append-between :
    (a b c d : Text) → a ++ b ≡ c ++ d → size a ≤ size c → (p : Text) × (a ++ p ≡ c) × (b ≡ p ++ d)
append-between [] b c d e h = (c, refl, e)
append-between (x ∷ a) b [] d e h = absurd (omega (arith, width_pos x))
append-between (x ∷ a) b (y ∷ c) d e h =
    let same : x ≡ y = cc in
    let rest : a ++ b ≡ c ++ d = cc in
    let widths : width x ≡ width y = ap width same in
    let (p, left, right) = append-between a b c d rest (omega arith) in (p, cc, right)

-- `==` of two texts.
abbrev pub text_eq : Text → Text → Bool
text_eq [] [] = true
text_eq [] (d ∷ t) = false
text_eq (c ∷ s) [] = false
text_eq (c ∷ s) (d ∷ t) = c == d && text_eq s t

pub text_eq_iff : (s t : Text) → (text_eq s t ≡ true) ↔ (s ≡ t)
text_eq_iff [] [] = ((λ h. refl), (λ h. refl))
text_eq_iff [] (d ∷ t) = ((λ h. cc), (λ h. cc))
text_eq_iff (c ∷ s) [] = ((λ h. cc), (λ h. cc))
text_eq_iff (c ∷ s) (d ∷ t) = (
  (λ h. ground (arith, text_eq_iff s t)),
  (λ h. let same : s ≡ t = cc in let head : c ≡ d = cc in ground (arith, text_eq_iff s t)),
)

instance abbrev pub Text_eq : Eq Text
Text_eq = record { eq = text_eq; eq_iff = text_eq_iff }
