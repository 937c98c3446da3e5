-- ===== src/Server/Resolver/Flights.antt =====
-- The sharing of searches in apps/server/src/mastodon/resolve.rs: the callers that want one snowflake,
-- and that snowflake's entry in the map of flights. The entries of different snowflakes do not touch
-- each other. A step is what one caller does under the lock of the map, or the end of a search.
pub mod Sharing
use fediway.Prelude.{
  ℕ, suc, ◌+◌, ◌≡◌, Bool, true, false, ◌==◌, Option, none, some, List, [], ◌∷◌, ◌++◌, any, ltb, ◌⊎◌,
}

-- Flights are numbered in the order in which they start. A caller that has passed the lookup stands
-- in `waiting` with the flight whose future it holds, until it has removed the entry.
pub record State : Type 0 where
  pub entry : Option ℕ
  pub started : ℕ
  pub finished : List ℕ
  pub waiting : List ℕ

abbrev pub idle : State
idle = record { entry = none; started = 0; finished = []; waiting = [] }

abbrev pub has_finished : State → ℕ → Bool
has_finished s f = any (λ g. g == f) s.finished

-- The steps, where a caller of a flight removes the entry only in states that satisfy `Guard` for it.
pub data Step (Guard : State → ℕ → Type 0) : State → State → Type 0 where
  -- `flights.insert`, as there is no entry
  start :
      {s : State}
      → s.entry ≡ none
      → Step Guard s (record s {
        entry = some s.started;
        started = suc s.started;
        waiting = s.started ∷ s.waiting;
      })
  -- `existing.clone()`
  join :
      {s : State} (f : ℕ) → s.entry ≡ some f → Step Guard s (record s { waiting = f ∷ s.waiting })
  -- The search of a flight ends.
  finish :
      {s : State} (f : ℕ)
      → ltb f s.started ≡ true
      → Step Guard s (record s { finished = f ∷ s.finished })
  -- `shared.await` has the result, and `remove` takes the entry away, whichever flight it is of.
  leave :
      {s : State} (f : ℕ) (before after : List ℕ)
      → Guard s f
      → s.waiting ≡ before ++ f ∷ after
      → has_finished s f ≡ true
      → Step Guard s (record s { entry = none; waiting = before ++ after })
  -- The request of a caller is dropped while it awaits the result: the entry stays.
  dropped :
      {s : State} (f : ℕ) (before after : List ℕ)
      → s.waiting ≡ before ++ f ∷ after
      → Step Guard s (record s { waiting = before ++ after })

pub data Reachable (Guard : State → ℕ → Type 0) : State → Type 0 where
  initially : Reachable Guard idle
  next : {s s' : State} → Reachable Guard s → Step Guard s s' → Reachable Guard s'

-- Every removal, as in the code, and those that take away no entry of another flight.
abbrev pub Always : State → ℕ → Type 0
Always s f = Unit

abbrev pub TakesOwn : State → ℕ → Type 0
TakesOwn s f = (s.entry ≡ some f) ⊎ (s.entry ≡ none)

-- The search of the flight was started and has not ended.
abbrev pub Running : State → ℕ → Type 0
Running s f = (ltb f s.started ≡ true) × (has_finished s f ≡ false)
