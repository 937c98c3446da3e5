-- ===== src/Server/Seen.antt =====
-- apps/server/src/feeds/seen.rs, on any state that holds a cache. A set of identifiers is the list of
-- what was inserted.
pub mod Newest
use fediway.Prelude.{
  ℕ, ◌-◌, ◌*◌, Option, String, ◌<>◌, display, List, [], ◌++◌, length, drop, ltb, is_empty,
  if◌then◌else◌,
}
use mathlib.Core.Option
use fediway.Prelude.Int.{ℤ}
use fediway.State.Cache.{Codec}
use fediway.State.Cache.Store.{Store}

abbrev seen_ttl : ℕ
seen_ttl = 60 * 60

abbrev pub cap : ℕ
cap = 500

unfoldable pub seen_key : ℤ → String
unfolding display
seen_key user_id = "home_seen:" <> display user_id

-- `urls.drain(..drop)`: the oldest go.
abbrev pub keep_newest : List String → List String
keep_newest urls = if ltb cap (length urls) then drop (length urls - cap) urls else urls

module _ {S : Type 0} (st : Store S) (codec : Codec (List String)) where
  unfoldable pub load : ℤ → S → List String × S
  unfolding seen_key
  load user_id s =
      let (found, after) = st.get codec (seen_key user_id) s in (Option.get_or found [], after)

  unfoldable pub extend : ℤ → List String → S → S
  unfolding seen_key
  extend user_id new s =
      let (found, after) = st.get codec (seen_key user_id) s in
      let urls = Option.get_or found [] ++ new in
      let written = st.set codec (seen_key user_id) (keep_newest urls) seen_ttl after in
      if is_empty new then s else written
