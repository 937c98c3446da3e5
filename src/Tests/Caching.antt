-- ===== src/Tests/Caching.antt =====
-- The cache on a server that fails, and on the memory backend.
use fediway.Prelude.{ℕ, ◌≡◌, refl, true, false, some, String, List, [], ◌∷◌, arith}
use fediway.Prelude.Map
use fediway.State.Cache.{Codec, err, Redis, Session, is_open, new, in_memory, get, set}
use fediway.State.Cache.Breaker.{Outcome, success, failure, replay, tripped, is_open-replay}
use fediway.State.Cache.Store.{IsStore, InMemory, cache_store, cache_store-IsStore}

-- The server that is down, in a world that is only a clock.
abbrev pub down : Redis ℕ
down = record {
  query_get = λ _ t. (err, t);
  query_set = λ _ _ _ t. (err, t);
  since_epoch = λ t. some t;
}

-- Texts written as they are.
abbrev plain : Codec String
plain = record { to_string = λ s. some s; from_str = λ s. some s }

program : Unit {0}
unfolding get set new in_memory is_open replay Map.get Map.insert
program = tt

-- Five failures, the last at 104.
abbrev outage : List Outcome
outage =
    failure 104 ∷ failure 103 ∷ failure 102 ∷ failure 101 ∷ failure 100 ∷ success ∷ failure 90 ∷ []

is_open-replay_example : is_open 133 (replay outage) ≡ tripped outage 133
is_open-replay_example = is_open-replay outage 133 (omega arith)

outage_run : (is_open 133 (replay outage) ≡ true) × (is_open 134 (replay outage) ≡ false)
unfolding program
outage_run = (refl, refl)

abbrev resting : Session ℕ
resting = record { cache = record (new "fediway") { breaker = replay outage }; world = 110 }

abbrev pub fresh : Session ℕ
fresh = record { cache = in_memory; world = 0 }

memory_run : (get down plain "k" (set down plain "k" "v" 60 fresh)).0 ≡ some "v"
unfolding program
memory_run = refl

cache_store-IsStore_example : IsStore (cache_store down) (InMemory down)
cache_store-IsStore_example = cache_store-IsStore down
