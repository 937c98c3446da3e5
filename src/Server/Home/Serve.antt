-- ===== src/Server/Home/Serve.antt =====
-- `serve`, `load_pool` and `rebuild_pool` of apps/server/src/feeds/home.rs, on any state that holds a
-- cache. The rendering of the chosen items (`to_statuses`) and the check of a header's value are
-- parameters; the metrics are left out. `none` is a panic.
use fediway.Prelude.{
  ℕ, ◌*◌, min, max, Bool, true, false, not, ◌&&◌, Option, none, some, String, ◌<>◌, display, List,
  [], ◌∷◌, map, take, filter, contains, ◌>>=◌, if◌then◌else◌,
}
use mathlib.Core.Option
use fediway.Prelude.Int.{ℤ}
use fediway.Common.Types.{Post}
use fediway.Feed.Candidate.{Candidate}
use fediway.State.Cache.{Codec}
use fediway.State.Cache.Store.{Store}
use fediway.State.Detail.Fetch.{Outcome, done, failed, panicked}
use fediway.Sources.FeedItem.{FeedItem, from_post}
use fediway.Server.Seen
use fediway.Server.Home.{HomeFeed, identity, collect}

abbrev home_ttl : ℕ
home_ttl = 15 * 60

abbrev reload_bypasses_seen : List String
reload_bypasses_seen = "network" ∷ []

-- `TimelineParams` of apps/server/src/feeds/timeline_feed.rs
pub record TimelineParams : Type 0 where
  pub limit : ℕ
  pub max_id : Option String
  pub min_id : Option String
  pub since_id : Option String

-- `(String, String, FeedItem)`: the identity, the group, and the item.
pub record Entry : Type 0 where
  pub uri : String
  pub group : String
  pub item : FeedItem

-- The rendering of items, which may fail or panic, and the identifier of a status.
pub record Rendering (Status E : Type 0) : Type 0 where
  pub to_statuses : List FeedItem → ℤ → Outcome (List Status) E
  pub status_id : Status → String
  pub header_value : String → Option String

pub record Response (Status : Type 0) : Type 0 where
  pub link : Option String
  pub statuses : List Status

unfoldable pub cache_key : ℤ → String
unfolding display
cache_key user_id = "home:" <> display user_id

-- `limit.clamp(1, 40)`
abbrev pub page_limit : TimelineParams → ℕ
page_limit params = min 40 (max 1 params.limit)

abbrev pub is_reload : TimelineParams → Bool
is_reload params = elim params.max_id [ none ↦ true | some _ ↦ false ]

-- The closure `keep`.
unfoldable pub keep : Bool → List String → Entry → Bool
unfolding contains
keep reload seen_set e =
    if reload && contains reload_bypasses_seen e.group then true else not (contains seen_set e.uri)

abbrev pub select : TimelineParams → List String → List Entry → List Entry
select params seen_set pool =
    take (page_limit params) (filter (keep (is_reload params) seen_set) pool)

abbrev entry : {F : Type 0} → String → Candidate Post F → Entry
entry instance_domain c = record {
  uri = identity c.item;
  group = c.group;
  item = from_post c.item instance_domain;
}

-- `statuses.last()`
abbrev last {ℓ} : {A : Type ℓ} → List A → Option A
last [] = none
last (x ∷ xs) = some (Option.get_or (last xs) x)

-- A page that could not be rendered is empty, and a panic goes on.
abbrev pub rendered : {Status E : Type 0} → Outcome (List Status) E → Option (List Status)
rendered (done statuses) = some statuses
rendered (failed e) = some []
rendered panicked = none

module _ {Status E : Type 0} (rendering : Rendering Status E) (instance_domain : String) where
  -- The link to the next page, if there is a status and its header can be written.
  link_of : List Status → Option String
  link_of statuses = do
    final ← last statuses
    rendering.header_value (
        "<https://"
        <> (instance_domain
            <> ("/api/v1/timelines/home?max_id="
                <> (rendering.status_id final <> ">; rel=\"next\""))))

module _ {S F : Type 0} (st : Store S) (pool_codec : Codec (List Entry))
    (instance_domain : String) where
  unfoldable pub rebuild_pool : HomeFeed F → S → Option (List Entry × S)
  unfolding cache_key
  rebuild_pool home s = do
    items ← collect home
    let pool = map (entry instance_domain) items
    some (pool, st.set pool_codec (cache_key home.user_id) pool home_ttl s)

  -- A cached pool is used unless it is empty.
  unfoldable pub use_pool : Option (List Entry) → HomeFeed F → S → Option (List Entry × S)
  unfolding rebuild_pool
  use_pool none home s = rebuild_pool home s
  use_pool (some []) home s = rebuild_pool home s
  use_pool (some (e ∷ es)) home s = some (e ∷ es, s)

  unfoldable pub load_pool : HomeFeed F → S → Option (List Entry × S)
  unfolding use_pool cache_key
  load_pool home s =
      let (cached, after) = st.get pool_codec (cache_key home.user_id) s in
      use_pool cached home after

  -- The first choice, or the one after the pool was built again if that is empty.
  unfoldable pub choose_again :
      HomeFeed F → TimelineParams → List String → List Entry → S → Option (List Entry × S)
  unfolding rebuild_pool keep
  choose_again home params seen_set [] s = do
    (pool, after) ← rebuild_pool home s
    some (select params seen_set pool, after)
  choose_again home params seen_set (e ∷ es) s = some (e ∷ es, s)

  module _ (seen_codec : Codec (List String)) where
    -- `serve` up to the entries of the page.
    unfoldable pub choose : HomeFeed F → TimelineParams → S → Option (List Entry × S)
    unfolding load_pool choose_again Seen.load keep
    choose home params s = do
      (pool, s1) ← load_pool home s
      let (seen_set, s2) = Seen.load st seen_codec home.user_id s1
      choose_again home params seen_set (select params seen_set pool) s2

    unfoldable pub serve :
        {Status E : Type 0}
        → Rendering Status E
        → HomeFeed F
        → TimelineParams
        → S
        → Option (Response Status × S)
    unfolding choose Seen.extend link_of
    serve rendering home params s = do
      (chosen, s1) ← choose home params s
      statuses ← rendered (rendering.to_statuses (map (λ e. e.item) chosen) home.user_id)
      let s2 = Seen.extend st seen_codec home.user_id (map (λ e. e.uri) chosen) s1
      some (record { link = link_of rendering instance_domain statuses; statuses = statuses }, s2)
