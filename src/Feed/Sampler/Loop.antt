-- ===== src/Feed/Sampler/Loop.antt =====
-- The loop of `sample` in crates/feed/src/sampler.rs under any lawful sampler.
use fediway.Prelude.{
  ℕ, zero, suc, ◌<◌, min, ◌≡◌, refl, ap, inl, inr, some, List, [], ◌∷◌, ◌++◌, Perm, append_assoc,
  arith, length, get_elem?, set, Option-cases,
}
use mathlib.Core.List.{append-nil}
use mathlib.Core.List.Perm
use fediway.Feed.Candidate.{Candidate}
use fediway.Feed.Sampler.{last?, drop_last, swap_remove, Sampler, IsLawful, sample_loop, sample}

module _ {ℓ} {A : Type ℓ} where
  last-some : (x : A) (xs : List A) → (l : A) × (last? (x ∷ xs) ≡ some l)
  unfolding last?
  last-some x [] = (x, refl)
  last-some x (y ∷ ys) = last-some y ys

  last-perm :
      (x : A) (xs : List A) (l : A)
      → last? (x ∷ xs) ≡ some l
      → Perm (l ∷ drop_last (x ∷ xs)) (x ∷ xs)
  unfolding last? drop_last
  last-perm x [] l h = let e : l ≡ x = cc in rw e (Perm.refl _)
  last-perm x (y ∷ ys) l h = Perm.trans (Perm.swap x l _) (Perm.cons x (last-perm y ys l h))

  -- Overwriting position `i` by the last element and dropping the last removes the `i`-th element.
  set-last-perm :
      (x : A) (xs : List A) (i : ℕ) (a l : A)
      → get_elem? (x ∷ xs) i ≡ some a
      → last? (x ∷ xs) ≡ some l
      → Perm (a ∷ drop_last (set (x ∷ xs) i l)) (x ∷ xs)
  unfolding last? drop_last
  set-last-perm x [] zero a l h k = let e : a ≡ x = cc in rw e (Perm.refl _)
  set-last-perm x [] (suc i) a l h k = cc
  set-last-perm x (y ∷ ys) zero a l h k =
      let e : a ≡ x = cc in rw e (Perm.cons x (last-perm y ys l k))
  set-last-perm x (y ∷ ys) (suc zero) a l h k =
      Perm.trans (Perm.swap x a _) (Perm.cons x (set-last-perm y ys zero a l h k))
  set-last-perm x (y ∷ ys) (suc (suc i)) a l h k =
      Perm.trans (Perm.swap x a _) (Perm.cons x (set-last-perm y ys (suc i) a l h k))

  length-drop_last-set :
      (x : A) (xs : List A) (i : ℕ) (l : A) → length (drop_last (set (x ∷ xs) i l)) ≡ length xs
  unfolding drop_last
  length-drop_last-set x [] zero l = refl
  length-drop_last-set x [] (suc i) l = refl
  length-drop_last-set x (y ∷ ys) zero l = ap suc (length-drop_last-set y ys zero y)
  length-drop_last-set x (y ∷ ys) (suc zero) l = ap suc (length-drop_last-set y ys zero l)
  length-drop_last-set x (y ∷ ys) (suc (suc i)) l = ap suc (length-drop_last-set y ys (suc i) l)

  get_elem?-some : (xs : List A) (i : ℕ) → i < length xs → (a : A) × (get_elem? xs i ≡ some a)
  get_elem?-some [] i h = elim h [ ]
  get_elem?-some (x ∷ xs) zero h = (x, refl)
  get_elem?-some (x ∷ xs) (suc i) h = get_elem?-some xs i (omega arith)

  -- `swap_remove` at an index in range takes out the element that stands there, and keeps all
  -- others.
  pub swap_remove-perm :
      (x : A) (xs : List A) (i : ℕ)
      → i < length (x ∷ xs)
      → (a : A) × (rest : List A) × (swap_remove (x ∷ xs) i ≡ some (a, rest))
        × (get_elem? (x ∷ xs) i ≡ some a)
        × Perm (a ∷ rest) (x ∷ xs)
        × (length rest ≡ length xs)
  unfolding swap_remove
  swap_remove-perm x xs i h =
      let (a, at) = get_elem?-some (x ∷ xs) i h in
      let (l, end) = last-some x xs in
      (
        a,
        drop_last (set (x ∷ xs) i l),
        rw (at, end) refl,
        at,
        set-last-perm x xs i a l at end,
        length-drop_last-set x xs i l,
      )

module _ {ℓ} {Item : Type ℓ} {F : Type 0} (s : Sampler Item F) (lawful : IsLawful s) where
  -- One round: the sampler's choice moves from what remains to what is selected.
  pub round :
      (c : Candidate Item F) (cs selected : List (Candidate Item F))
      → (i : ℕ) × (s.pick (c ∷ cs) selected ≡ some i)
        × (x : Candidate Item F) × (rest : List (Candidate Item F)) × (swap_remove (c ∷ cs) i
            ≡ some (x, rest))
        × (get_elem? (c ∷ cs) i ≡ some x)
        × Perm (x ∷ rest) (c ∷ cs)
        × (length rest ≡ length cs)
  round c cs selected = elim (Option-cases (s.pick (c ∷ cs) selected)) [
    | inl e ↦ absurd (lawful.eager c cs selected e)
    | inr (i, e) ↦
        let (x, rest, removed, at, p, n) =
          swap_remove-perm c cs i (lawful.in_range (c ∷ cs) selected i e) in
        (i, e, x, rest, removed, at, p, n)
  ]

  pub sample_loop-perm :
      (n : ℕ) (candidates selected : List (Candidate Item F))
      → (remaining out : List (Candidate Item F)) × (sample_loop s n candidates selected
          ≡ some (remaining, selected ++ out))
        × Perm (out ++ remaining) candidates
        × (length out ≡ min n (length candidates))
  unfolding sample_loop
  sample_loop-perm zero candidates selected =
      (candidates, [], rw append-nil, Perm.refl _, omega arith)
  sample_loop-perm (suc n) [] selected = ([], [], rw append-nil, Perm.refl _, omega arith)
  sample_loop-perm (suc n) (c ∷ cs) selected =
      let (i, picked, x, rest, removed, _, p, len) = round c cs selected in
      let (remaining, out, run, q, m) = sample_loop-perm n rest (selected ++ x ∷ []) in
      (
        remaining,
        x ∷ out,
        rw (picked, sample_loop, removed, run)
            (ap (λ l. some (remaining, l)) (append_assoc selected (x ∷ []) out)),
        Perm.trans (Perm.cons x q) p,
        omega arith,
      )

  -- A lawful sampler never panics. What it selects and what it leaves are together the candidates,
  -- each as often as before, and the selection has the size asked for, or all there are.
  pub sample-perm :
      (candidates : List (Candidate Item F)) (n : ℕ)
      → (out remaining : List (Candidate Item F)) × (sample s candidates n ≡ some out)
        × Perm (out ++ remaining) candidates
        × (length out ≡ min n (length candidates))
  unfolding sample
  sample-perm candidates n =
      let (remaining, out, run, p, m) = sample_loop-perm n candidates [] in
      (out, remaining, rw run refl, p, m)
