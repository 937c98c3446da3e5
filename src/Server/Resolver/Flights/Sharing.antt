-- ===== src/Server/Resolver/Flights/Sharing.antt =====
-- What the map of flights guarantees.
use fediway.Prelude.{
  ℕ, suc, ◌≡◌, sym, ap, ◌∙◌, Bool, true, false, ◌==◌, Option, none, some, ◌∷◌, any, ltb, arith,
  Bool-cases, inl, inr,
}
use fediway.Server.Resolver.Flights.{
  State, has_finished, Step, start, join, finish, leave, dropped, Reachable, initially, next,
  TakesOwn, Running,
}

some-inj : {a b : ℕ} → some a ≡ some b → a ≡ b
some-inj h = cc

none-some : {a : ℕ} → ◌≡◌ {A = Option ℕ} none (some a) → ⊥
none-some h = cc

false-true : ◌≡◌ {A = Bool} false true → ⊥
false-true h = cc

nothing_started : (f : ℕ) → ltb f 0 ≡ true → ⊥
nothing_started f h = ground arith

unfinished :
    (f g : ℕ) (s : State) → any (λ x. x == g) (f ∷ s.finished) ≡ false → has_finished s g ≡ false
unfinished f g s h = ground arith

-- A search that runs is that of the entry.
abbrev Entered : State → Type 0
Entered s = (f : ℕ) → Running s f → s.entry ≡ some f

start-Entered :
    (s : State)
    → Entered s
    → s.entry ≡ none
    → (f : ℕ) → ltb f (suc s.started) ≡ true
    → has_finished s f ≡ false
    → ◌≡◌ {A = Option ℕ} (some s.started) (some f)
start-Entered s i e f a b = elim (Bool-cases (ltb f s.started)) [
  | inl l ↦ absurd (none-some (sym e ∙ i f (l, b)))
  | inr l ↦ let same : s.started ≡ f = ground arith in ap some same
]

-- A flight whose caller leaves has ended, so that none runs.
leave-Running :
    (s : State)
    → Entered s
    → (f : ℕ) → TakesOwn s f
    → has_finished s f ≡ true
    → (g : ℕ) → Running s g
    → ⊥
leave-Running s i f (inl e) h g r =
    let same : f ≡ g = some-inj (sym e ∙ i g r) in
    false-true (sym r.1 ∙ ap (has_finished s) (sym same) ∙ h)
leave-Running s i f (inr e) h g r = none-some (sym e ∙ i g r)

Step-Entered : (s s' : State) → Step TakesOwn s s' → Entered s → Entered s'
Step-Entered s _ (start e) i f r = start-Entered s i e f r.0 r.1
Step-Entered s _ (join f e) i g r = i g r
Step-Entered s _ (finish f l) i g r = i g (r.0, unfinished f g s r.1)
Step-Entered s _ (leave f before after own w e) i g r = absurd (leave-Running s i f own e g r)
Step-Entered s _ (dropped f before after w) i g r = i g r

Reachable-Entered : (s : State) → Reachable TakesOwn s → Entered s
Reachable-Entered _ initially f r = absurd (nothing_started f r.0)
Reachable-Entered _ (next {s} {s'} r step) f run =
    Step-Entered s s' step (Reachable-Entered s r) f run

-- If no caller of an ended flight takes away the entry of a later one, at most one search for the
-- snowflake runs at any time, and it is the one whose flight a next caller joins, however the callers
-- interleave and whichever of them are dropped.
pub Running-eq :
    (s : State) (f g : ℕ)
    → Reachable TakesOwn s
    → Running s f
    → Running s g
    → (f ≡ g) × (s.entry ≡ some f)
Running-eq s f g r a b = let i = Reachable-Entered s r in (some-inj (sym (i f a) ∙ i g b), i f a)
