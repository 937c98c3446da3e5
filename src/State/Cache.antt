-- ===== src/State/Cache.antt =====
-- crates/state/src/cache.rs. The redis server, the clock and serde are parameters: `Redis` says how
-- the outside world answers a command and reads its clock, a `Codec` how one type is written and
-- read. Log lines are left out, and so is the poisoning of the memory backend's lock, which only a
-- panic under the lock can cause. Times are whole seconds since the epoch.
pub mod Breaker
pub mod Store
use fediway.Prelude.{
  ℕ, ◌+◌, ◌%◌, ◌^◌, max, Bool, Option, none, some, String, ◌<>◌, [], ltb, leb, ◌>>=◌, if◌then◌else◌,
}
use mathlib.Core.Option
use fediway.Prelude.Map
use fediway.Prelude.Map.{Map, String_eq}

abbrev failure_threshold : ℕ
failure_threshold = 5

abbrev pub cooldown : ℕ
cooldown = 30

-- The number of values of a `u32`.
abbrev pub u32_values : ℕ
u32_values = 2 ^ 32

pub record CircuitState : Type 0 where
  pub consecutive_failures : ℕ
  pub skip_until_unix : ℕ

-- `CircuitState::default()`
abbrev pub closed : CircuitState
closed = record { consecutive_failures = 0; skip_until_unix = 0 }

unfoldable pub is_open : ℕ → CircuitState → Bool
is_open now s = ltb now s.skip_until_unix

unfoldable pub record_success : CircuitState → CircuitState
record_success s = record s { consecutive_failures = 0 }

-- `fetch_add` wraps around, as the sum of a release build does.
unfoldable pub record_failure : ℕ → CircuitState → CircuitState
record_failure now s =
    let failures = (s.consecutive_failures + 1) % u32_values in
    record {
      consecutive_failures = failures;
      skip_until_unix =
          if leb failure_threshold failures then now + cooldown else s.skip_until_unix;
    }

-- A clock before the epoch reads as the epoch.
abbrev pub now_unix : Option ℕ → ℕ
now_unix since_epoch = Option.get_or since_epoch 0

-- How a value of one type is written and read, each of which may fail.
pub record Codec (A : Type 0) : Type 0 where
  pub to_string : A → Option String
  pub from_str : String → Option A

-- The answer to a command.
pub data Reply (A : Type 0) : Type 0 where
  ok : A → Reply A
  err : Reply A

-- The outside world: what it answers to each command, and the time.
pub record Redis (W : Type 0) : Type 0 where
  pub query_get : String → W → Reply (Option String) × W
  pub query_set : String → String → ℕ → W → Reply Unit × W
  pub since_epoch : W → Option ℕ

pub data Backend : Type 0 where
  redis : Backend
  memory : Map String String → Backend
  disabled : Backend

pub record Cache : Type 0 where
  pub backend : Backend
  pub prefix : String
  pub breaker : CircuitState

-- A cache and the world that it talks to.
pub record Session (W : Type 0) : Type 0 where
  pub cache : Cache
  pub world : W

unfoldable pub new : String → Cache
new prefix = record { backend = redis; prefix = prefix; breaker = closed }

unfoldable pub without_backend : Cache
without_backend = record { backend = disabled; prefix = ""; breaker = closed }

unfoldable pub in_memory : Cache
in_memory = record { backend = memory []; prefix = ""; breaker = closed }

unfoldable pub full_key : Cache → String → String
full_key c key = c.prefix <> (":" <> key)

module _ {W : Type 0} (r : Redis W) where
  abbrev pub now : W → ℕ
  now w = now_unix (r.since_epoch w)

  abbrev pub with_breaker : (CircuitState → CircuitState) → Cache → Cache
  with_breaker f c = record c { breaker = f c.breaker }

  module _ {A : Type 0} (codec : Codec A) where
    -- The three arms of `get` on an answer of the server.
    unfoldable pub receive : Reply (Option String) × W → Cache → Option A × Session W
    unfolding record_success record_failure
    receive (ok (some json), w) c =
        (codec.from_str json, record { cache = with_breaker record_success c; world = w })
    receive (ok none, w) c = (none, record { cache = with_breaker record_success c; world = w })
    receive (err, w) c =
        (none, record { cache = with_breaker (record_failure (now w)) c; world = w })

    get_from : Backend → String → Session W → Option A × Session W
    unfolding is_open receive
    get_from disabled key s = (none, s)
    get_from (memory store) key s = (Map.get key store >>= codec.from_str, s)
    get_from redis key s =
        if is_open (now s.world) s.cache.breaker
        then (none, s)
        else receive (r.query_get key s.world) s.cache

    unfoldable pub get : String → Session W → Option A × Session W
    unfolding get_from full_key
    get key s = get_from s.cache.backend (full_key s.cache key) s

    -- The two arms of `set` on an answer of the server.
    unfoldable pub acknowledge : Reply Unit × W → Cache → Session W
    unfolding record_success record_failure
    acknowledge (ok _, w) c = record { cache = with_breaker record_success c; world = w }
    acknowledge (err, w) c = record { cache = with_breaker (record_failure (now w)) c; world = w }

    set_in : Backend → String → String → ℕ → Session W → Session W
    unfolding is_open acknowledge
    set_in disabled key json ttl s = s
    set_in (memory store) key json ttl s = record s {
      cache = record s.cache { backend = memory (Map.insert key json store) };
    }
    set_in redis key json ttl s =
        if is_open (now s.world) s.cache.breaker
        then s
        else acknowledge (r.query_set key json (max ttl 1) s.world) s.cache

    set_json : Option String → String → ℕ → Session W → Session W
    unfolding set_in full_key
    set_json none key ttl s = s
    set_json (some json) key ttl s = set_in s.cache.backend (full_key s.cache key) json ttl s

    unfoldable pub set : String → A → ℕ → Session W → Session W
    unfolding set_json
    set key value ttl s = set_json (codec.to_string value) key ttl s
