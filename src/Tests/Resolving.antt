-- ===== src/Tests/Resolving.antt =====
-- The resolver on a small database, and the flights of its callers.
use fediway.Prelude.{ℕ, ◌≡◌, refl, true, false, Option, none, some, String, [], ◌∷◌, inl, inr}
use fediway.Prelude.Int.{ℤ, pos}
use fediway.Prelude.Result.{ok, err}
use fediway.Prelude.Signed.{parse_i64}
use fediway.Server.Resolver.{rate_limited, Row, Answer, answer, Upstream, resolve}
use fediway.Server.Resolver.Errors.{Unknown, resolve-not_found}
use fediway.Server.Resolver.Mapping.{Stores, resolve-resolve}
use fediway.Server.Resolver.Flights.{
  State, start, join, finish, leave, dropped, Reachable, initially, next, Always, TakesOwn, Running,
}
use fediway.Server.Resolver.Flights.Sharing.{Running-eq}

program : Unit {0}
unfolding resolve parse_i64
program = tt

-- One row, with or without its identifier, whatever the snowflake.
abbrev row : Option ℤ → String → Row
row id uri = record { mastodon_local_id = id; post_uri = uri }

abbrev pub finds : String → Answer → Upstream (Option ℤ)
finds uri a = record {
  find_by_id = λ _ id. some (some (row id uri));
  search = λ _ w. (a, w);
  set_mastodon_local_id = λ _ id _. (true, some id);
}

abbrev found : Upstream (Option ℤ)
found = finds "https://b.net/1" (answer 200 none (some ("77" ∷ "78" ∷ [])))

finds-Stores : (uri : String) (a : Answer) → Stores (finds uri a)
finds-Stores uri a snowflake id w h = (row (some id) uri, refl, refl)

found_run : resolve found true (pos 5) none ≡ (ok (pos 77), some (pos 77))
unfolding program
found_run = refl

limited_run :
    resolve (finds "https://b.net/1" (answer 429 (some "30") none)) true (pos 5) none
    ≡ (err (rate_limited (some 30)), none)
unfolding program
limited_run = refl

resolve-resolve_example : resolve found false (pos 5) (some (pos 77)) ≡ (ok (pos 77), some (pos 77))
unfolding program
resolve-resolve_example =
    resolve-resolve found
      (finds-Stores "https://b.net/1" (answer 200 none (some ("77" ∷ "78" ∷ [])))) (pos 5) (pos 77)
      true false none (some (pos 77)) refl

abbrev no_uri : Upstream (Option ℤ)
no_uri = finds "" (answer 200 none none)

resolve-not_found_example :
    Unknown no_uri (no_uri.find_by_id (pos 5) none) × ((resolve no_uri true (pos 5) none).1 ≡ none)
unfolding program
resolve-not_found_example = resolve-not_found no_uri true (pos 5) none refl

-- Two callers share flight 0; one leaves.
abbrev shared :
    (Guard : State → ℕ → Type 0)
    → Guard (record { entry = some 0; started = 1; finished = 0 ∷ []; waiting = 0 ∷ 0 ∷ [] }) 0
    → Reachable Guard (record { entry = none; started = 1; finished = 0 ∷ []; waiting = 0 ∷ [] })
shared Guard g =
    next (next (next (next initially (start refl)) (join 0 refl)) (finish 0 refl))
      (leave 0 [] (0 ∷ []) g refl refl)

-- The other leaves as well; flight 1 starts, and its caller is dropped.
abbrev again :
    Reachable TakesOwn (record { entry = some 1; started = 2; finished = 0 ∷ []; waiting = [] })
again =
    next
      (next (next (shared TakesOwn (inl refl)) (leave 0 [] [] (inr refl) refl refl)) (start refl))
      (dropped 1 [] [] refl)

Running-eq_example : (◌≡◌ {A = ℕ} 1 1) × (◌≡◌ {A = Option ℕ} (some 1) (some 1))
Running-eq_example = Running-eq _ 1 1 again (refl, refl) (refl, refl)

-- Without that condition two searches can run: flight 1 starts before the second caller of flight 0
-- removes the entry, which takes away the entry of flight 1; the next caller then starts flight 2.
race : (s : State) × Reachable Always s × Running s 1 × Running s 2
race = (
  record { entry = some 2; started = 3; finished = 0 ∷ []; waiting = 2 ∷ 1 ∷ [] },
  next (next (next (shared Always tt) (start refl)) (leave 0 (1 ∷ []) [] tt refl refl))
      (start refl),
  (refl, refl),
  (refl, refl),
)
