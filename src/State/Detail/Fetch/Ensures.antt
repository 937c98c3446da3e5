-- ===== src/State/Detail/Fetch/Ensures.antt =====
-- What holds of the value of an outcome, and of a map made of rows.
use fediway.Prelude.{
  ◌≡◌, refl, sym, ◌∙◌, inl, inr, List, [], ◌∷◌, Option, none, some, map, All, Bool-cases,
  ◌>>=◌ as ◌>>=?◌,
}
use fediway.Prelude.Int.{ℤ}
use fediway.Prelude.Map.{Map, get, insert, get-insert, ℤ_eq, eq_ℤ, eq_ℤ_iff}
use fediway.State.Detail.Fetch.{Outcome, done, failed, panicked, ◌>>=◌, collect_rows, all_built}

-- What holds of the value, if there is one.
abbrev pub Ensures {ℓ κ μ} : {A : Type ℓ} {E : Type κ} → (A → Type μ) → Outcome A E → Type μ
Ensures P (done a) = P a
Ensures P (failed e) = Unit
Ensures P panicked = Unit

pub Ensures-bind {ℓ μ κ ν ξ} :
    {A : Type ℓ} {B : Type μ} {E : Type κ} (Q : A → Type ν) (P : B → Type ξ) (m : Outcome A E)
    (f : A → Outcome B E)
    → Ensures Q m
    → ((a : A) → Q a → Ensures P (f a))
    → Ensures P (m >>= f)
Ensures-bind Q P (done a) f h k = k a h
Ensures-bind Q P (failed e) f h k = tt
Ensures-bind Q P panicked f h k = tt

-- A step whose value does not matter.
pub Ensures-skip {ℓ μ κ ξ} :
    {A : Type ℓ} {B : Type μ} {E : Type κ} (P : B → Type ξ) (m : Outcome A E) (f : A → Outcome B E)
    → ((a : A) → Ensures P (f a))
    → Ensures P (m >>= f)
Ensures-skip P (done a) f k = k a
Ensures-skip P (failed e) f k = tt
Ensures-skip P panicked f k = tt

-- What is found in the map was put in.
pub get-collect_rows {ℓ κ} :
    {A : Type ℓ} (P : ℤ × A → Type κ) (rows : List (ℤ × A)) (m : Map ℤ A)
    → All P rows
    → ((k : ℤ) (a : A) → get k m ≡ some a → P (k, a))
    → (k : ℤ) (a : A) → get k (collect_rows m rows) ≡ some a
    → P (k, a)
get-collect_rows P [] m h old k a e = old k a e
get-collect_rows P ((j, b) ∷ rows) m h old k a e =
    get-collect_rows P rows (insert j b m) h.1
      (λ i c f. elim (Bool-cases (eq_ℤ j i)) [
        | inl same ↦
            let here : some b ≡ some c = rw same at (sym (get-insert j i b m) ∙ f) in
            let value : b ≡ c = cc in
            let key : j ≡ i = (eq_ℤ_iff j i).0 same in rw (← key, ← value) h.0
        | inr other ↦ old i c (rw other at (sym (get-insert j i b m) ∙ f))
      ])
      k a e

abbrev pub IfSome {ℓ κ} : {A : Type ℓ} → (A → Type κ) → Option A → Type κ
IfSome P none = Unit
IfSome P (some a) = P a

pub IfSome-bind {ℓ μ κ} :
    {A : Type ℓ} {B : Type μ} (P : B → Type κ) (o : Option A) (f : A → Option B)
    → ((a : A) → IfSome P (f a))
    → IfSome P (o >>=? f)
IfSome-bind P none f h = tt
IfSome-bind P (some a) f h = h a

pub all_built-Ensures {ℓ κ μ} :
    {A : Type ℓ} (E : Type κ) (P : A → Type μ) (os : List (Option A))
    → All (IfSome P) os
    → Ensures {E = E} (All P) (all_built os)
all_built-Ensures E P [] h = tt
all_built-Ensures E P (none ∷ os) h = tt
all_built-Ensures E P (some a ∷ os) h =
    Ensures-bind (All P) (All P) (all_built {E = E} os) (λ rest. done (a ∷ rest))
      (all_built-Ensures E P os h.1) (λ rest k. (h.0, k))

pub All-of_map {ℓ κ μ ν} :
    {A : Type ℓ} {B : Type κ} (P : A → Type μ) (Q : B → Type ν) (f : A → B)
    → ((a : A) → P a → Q (f a))
    → (xs : List A) → All P xs
    → All Q (map f xs)
All-of_map P Q f h [] k = tt
All-of_map P Q f h (x ∷ xs) k = (h x k.0, All-of_map P Q f h xs k.1)

pub IfSome-of_get {ℓ κ} :
    {A : Type ℓ} (P : A → Type κ) (o : Option A) → ((a : A) → o ≡ some a → P a) → IfSome P o
IfSome-of_get P none h = tt
IfSome-of_get P (some a) h = h a refl
