-- ===== src/State/Cache/Breaker.antt =====
-- The circuit breaker of crates/state/src/cache.rs over a history of commands.
use fediway.Prelude.{
  ℕ, suc, ◌+◌, ◌%◌, ◌≡◌, ◌<◌, ◌≤◌, refl, Bool, true, false, Option, none, some, String, List, [],
  ◌∷◌, length, ltb, leb, arith, if◌then◌else◌,
}
use fediway.State.Cache.{
  CircuitState, closed, is_open, record_success, record_failure, cooldown, u32_values, Codec, Redis,
  redis, Session, now, get, set_json, set,
}

-- What one answered command tells the breaker, with the time of a failure.
pub data Outcome : Type 0 where
  success : Outcome
  failure : ℕ → Outcome

-- The state after a history, the last outcome first.
unfoldable pub replay : List Outcome → CircuitState
unfolding record_success record_failure
replay [] = closed
replay (success ∷ os) = record_success (replay os)
replay (failure t ∷ os) = record_failure t (replay os)

-- How many failures there were since the last success.
abbrev pub streak : List Outcome → ℕ
streak [] = 0
streak (success ∷ os) = 0
streak (failure t ∷ os) = suc (streak os)

-- The last failure that was the fifth or a later one in a row is less than the cool-down ago.
abbrev pub tripped : List Outcome → ℕ → Bool
tripped [] at = false
tripped (success ∷ os) at = tripped os at
tripped (failure t ∷ os) at =
    let before = tripped os at in if leb 5 (suc (streak os)) then ltb at (t + cooldown) else before

streak-le : (os : List Outcome) → streak os ≤ length os
streak-le [] = omega arith
streak-le (success ∷ os) = omega arith
streak-le (failure t ∷ os) = omega (arith, streak-le os)

failures-replay :
    (os : List Outcome) → length os < u32_values → (replay os).consecutive_failures ≡ streak os
unfolding replay
failures-replay [] h = refl
failures-replay (success ∷ os) h = refl
failures-replay (failure t ∷ os) h =
    let shorter : length os < u32_values = omega arith in
    omega (arith, failures-replay os shorter, streak-le os)

-- In every history of fewer than 2^32 commands the breaker is open exactly if the last failure that
-- was at least the fifth in a row is less than 30 seconds ago. A success does not close it, and after
-- the pause a single failure opens it again.
pub is_open-replay :
    (os : List Outcome) (at : ℕ) → length os < u32_values → is_open at (replay os) ≡ tripped os at
unfolding replay is_open
is_open-replay [] at h = ground arith
is_open-replay (success ∷ os) at h =
    let shorter : length os < u32_values = omega arith in is_open-replay os at shorter
is_open-replay (failure t ∷ os) at h =
    let shorter : length os < u32_values = omega arith in
    let count : ((replay os).consecutive_failures + 1) % u32_values ≡ suc (streak os) =
      omega (arith, failures-replay os shorter, streak-le os) in
    ground (arith, count, is_open-replay os at shorter)

module _ {W A : Type 0} (r : Redis W) (codec : Codec A) where
  set_json-open :
      (json : Option String) (key : String) (ttl : ℕ) (s : Session W)
      → s.cache.backend ≡ redis
      → is_open (now r s.world) s.cache.breaker ≡ true
      → set_json r codec json key ttl s ≡ s
  unfolding set
  set_json-open none key ttl s b h = refl
  set_json-open (some json) key ttl s b h = rw (b, h) refl

  -- While the breaker is open, `get` answers nothing and `set` does nothing: no command reaches the
  -- server, and neither the cache nor its breaker changes.
  get-set-open :
      (key : String) (value : A) (ttl : ℕ) (s : Session W)
      → s.cache.backend ≡ redis
      → is_open (now r s.world) s.cache.breaker ≡ true
      → (get r codec key s ≡ (none, s)) × (set r codec key value ttl s ≡ s)
  unfolding get set
  get-set-open key value ttl s b h =
      (rw (b, h) refl, set_json-open (codec.to_string value) key ttl s b h)
