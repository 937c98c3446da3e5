-- ===== src/State/Cache/Store.antt =====
-- What the callers of crates/state/src/cache.rs rely on, as an interface, and the memory backend. A
-- redis server gives it only as long as it neither fails nor evicts an entry.
use text.Mathlib.TextLemmas.{append_cancel_left}
use fediway.Prelude.{
  ℕ, ◌≡◌, ◌≢◌, refl, sym, ap, ◌∙◌, false, Option, none, some, String, str_eq, str_eq_iff,
  str_eq_self, inl, inr, Option-cases, ◌<>◌, arith, ◌>>=◌, if◌then◌else◌,
}
use mathlib.Core.Path.{subst}
use fediway.Prelude.Map
use fediway.Prelude.Map.{Map, String_eq, get-insert}
use fediway.State.Cache.{Codec, Redis, memory, Cache, Session, full_key, get, set}

-- `get` and `set` on a state that holds a cache.
pub record Store (S : Type 0) : Type 1 where
  pub get : {A : Type 0} → Codec A → String → S → Option A × S
  pub set : {A : Type 0} → Codec A → String → A → ℕ → S → S

-- Serde reads back what it wrote.
abbrev pub RoundTrips : {A : Type 0} → Codec A → A → Type 0
RoundTrips {A} codec value =
    (json : String) × (codec.to_string value ≡ some json) × (codec.from_str json ≡ some value)

-- The laws, on the states where `Works` holds: `get` changes nothing, a value that was set is found
-- under its key, and the other keys keep theirs.
pub record IsStore {S : Type 0} (st : Store S) (Works : S → Type 0) : Type 1 where
  pub get-Works :
      {A : Type 0} (codec : Codec A) (key : String) (s : S) → Works s → (st.get codec key s).1 ≡ s
  pub set-Works :
      {A : Type 0} (codec : Codec A) (key : String) (value : A) (ttl : ℕ) (s : S)
      → Works s
      → Works (st.set codec key value ttl s)
  pub get-set :
      {A : Type 0} (codec : Codec A) (key : String) (value : A) (ttl : ℕ) (s : S)
      → Works s
      → RoundTrips codec value
      → (st.get codec key (st.set codec key value ttl s)).0 ≡ some value
  pub get-set-other :
      {A B : Type 0} (codec : Codec A) (other : Codec B) (key key' : String) (value : A) (ttl : ℕ)
      (s : S)
      → Works s
      → key ≢ key'
      → (st.get other key' (st.set codec key value ttl s)).0 ≡ (st.get other key' s).0

full_key-inj : (c : Cache) (j k : String) → full_key c j ≡ full_key c k → j ≡ k
unfolding full_key
full_key-inj c j k h =
    append_cancel_left ":" j k (append_cancel_left c.prefix (":" <> j) (":" <> k) h)

module _ {W : Type 0} (r : Redis W) where
  abbrev pub cache_store : Store (Session W)
  cache_store = record { get = get r; set = set r }

  abbrev pub InMemory : Session W → Type 0
  InMemory s = (m : Map String String) × (s.cache.backend ≡ memory m)

  module _ {A : Type 0} (codec : Codec A) where
    get-memory :
        (key : String) (s : Session W) (m : Map String String)
        → s.cache.backend ≡ memory m
        → get r codec key s ≡ (Map.get (full_key s.cache key) m >>= codec.from_str, s)
    unfolding get
    get-memory key s m h = rw h refl

    set-memory :
        (key : String) (value : A) (ttl : ℕ) (json : String) (s : Session W) (m : Map String String)
        → s.cache.backend ≡ memory m
        → codec.to_string value ≡ some json
        → set r codec key value ttl s ≡ record s {
          cache = record s.cache { backend = memory (Map.insert (full_key s.cache key) json m) };
        }
    unfolding set
    set-memory key value ttl json s m h e = rw (e, h) refl

    set-unwritten :
        (key : String) (value : A) (ttl : ℕ) (s : Session W)
        → codec.to_string value ≡ none
        → set r codec key value ttl s ≡ s
    unfolding set
    set-unwritten key value ttl s e = rw e refl

    set-InMemory :
        (key : String) (value : A) (ttl : ℕ) (s : Session W)
        → InMemory s
        → InMemory (set r codec key value ttl s)
    set-InMemory key value ttl s (m, h) = elim (Option-cases (codec.to_string value)) [
      | inl e ↦ subst InMemory (sym (set-unwritten key value ttl s e)) (m, h)
      | inr (json, e) ↦
          subst InMemory (sym (set-memory key value ttl json s m h e))
            (Map.insert (full_key s.cache key) json m, refl)
    ]

    get-set-memory :
        (key : String) (value : A) (ttl : ℕ) (s : Session W)
        → InMemory s
        → RoundTrips codec value
        → (get r codec key (set r codec key value ttl s)).0 ≡ some value
    unfolding full_key
    get-set-memory key value ttl s (m, h) (json, e, back) =
        let stored = record s.cache {
          backend = memory (Map.insert (full_key s.cache key) json m);
        } in
        let found : Map.get (full_key s.cache key) (Map.insert (full_key s.cache key) json m)
            ≡ some json =
          get-insert (full_key s.cache key) (full_key s.cache key) json m
          ∙ ap (λ b. if b then some json else Map.get (full_key s.cache key) m)
              (str_eq_self (full_key s.cache key)) in
        ap (λ t. (get r codec key t).0) (set-memory key value ttl json s m h e)
        ∙ ap (λ p. p.0) (get-memory key (record s { cache = stored }) _ refl)
        ∙ ap (λ o. o >>= codec.from_str) found
        ∙ back

  module _ {A B : Type 0} (codec : Codec A) (other : Codec B) where
    get-set_other :
        (key key' : String) (value : A) (ttl : ℕ) (s : Session W)
        → InMemory s
        → key ≢ key'
        → (get r other key' (set r codec key value ttl s)).0 ≡ (get r other key' s).0
    unfolding full_key get
    get-set_other key key' value ttl s (m, h) ne = elim (Option-cases (codec.to_string value)) [
      | inl e ↦ ap (λ t. (get r other key' t).0) (set-unwritten codec key value ttl s e)
      | inr (json, e) ↦
          let apart : str_eq (full_key s.cache key) (full_key s.cache key') ≡ false = ground (
            arith,
            str_eq_iff (full_key s.cache key) (full_key s.cache key'),
            full_key-inj s.cache key key',
          ) in
          let stored = record s.cache {
            backend = memory (Map.insert (full_key s.cache key) json m);
          } in
          let kept : Map.get (full_key s.cache key') (Map.insert (full_key s.cache key) json m)
              ≡ Map.get (full_key s.cache key') m =
            get-insert (full_key s.cache key) (full_key s.cache key') json m
            ∙ ap (λ b. if b then some json else Map.get (full_key s.cache key') m) apart in
          ap (λ t. (get r other key' t).0) (set-memory codec key value ttl json s m h e)
          ∙ ap (λ p. p.0) (get-memory other key' (record s { cache = stored }) _ refl)
          ∙ ap (λ o. o >>= other.from_str) kept
          ∙ ap (λ p. p.0) (sym (get-memory other key' s m h))
    ]

  -- The memory backend keeps the interface's laws, whatever the prefix of its keys.
  pub cache_store-IsStore : IsStore cache_store InMemory
  cache_store-IsStore = record {
    get-Works = λ codec key s (m, h). ap (λ p. p.1) (get-memory codec key s m h);
    set-Works = λ codec. set-InMemory codec;
    get-set = λ codec. get-set-memory codec;
    get-set-other = λ codec other. get-set_other codec other;
  }
