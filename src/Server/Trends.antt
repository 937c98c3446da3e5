-- ===== src/Server/Trends.antt =====
-- apps/server/src/feeds/trend_feed.rs on any state that holds a cache. Serde and the check of a header's
-- value are parameters; `none` is a panic.
pub mod Feeds
pub mod Follow
use mathlib.Core.Option
use fediway.Prelude.{
  ℕ, Bool, true, false, ◌||◌, ◌&&◌, ltb, ◌==◌, List, [], ◌∷◌, ◌++◌, is_empty, Option, none, some,
  ◌>>=◌, String, ◌<>◌, map, if◌then◌else◌,
}
use fediway.Prelude.Int.{ℤ}
use fediway.Prelude.Sort.{sort_by}
use fediway.Entities.Cards.{card_of_link, tag_of}
use fediway.Entities.Types.{PreviewCard}
use fediway.Format.Links.{Tag as MastodonTag}
use fediway.Format.Remote.{Cleaner}
use fediway.Sources.CommonFeed.Types.{LinkResponse, QueryFilters, QueryResponse, TagResponse}
use fediway.Sources.CommonFeed.Fetch.{Answer, Provider, Request}
use fediway.Sources.CommonFeed.Collect.{
  PostsSource, new_source, with_filters, posts_source, links_source, tags_source,
}
use fediway.Prelude.Signed.{codes}
use fediway.Prelude.Float.{Float}
use fediway.Common.Types.{Link, Post, Tag, body}
use fediway.Feed.Candidate.{Candidate}
use fediway.Feed.Cursor.{Page}
use fediway.Feed.Filter
use fediway.Feed.Filter.{dedup_filter}
use fediway.Feed.Scorer.{diversity}
use fediway.Feed.Pipeline.{Source, Pipeline, execute}
use fediway.Feed.Pipeline.Builder
use fediway.Format.Characters.{Text}
use fediway.State.Cache.{Codec}
use fediway.State.Cache.Store.{Store}
use fediway.Server.Engine.{paginate}
use fediway.Server.Home.{author_handle, percent}

-- `TrendFeed`: `collect` gives the items of the candidates, `rebuild` those of the feed made again.
pub record TrendFeed (Item Response : Type 0) : Type 0 where
  pub cache_key : String
  pub path : Text
  pub collect : Option (List Item)
  pub rebuild : Option (List Item)
  pub map : List Item → List Response

abbrev ttl : ℕ
ttl = 60

pub record Served (Response : Type 0) : Type 0 where
  pub link : Option Text
  pub body : List Response

-- The link to the next page, if there is one and its header can be written.
abbrev link_of : (Text → Option Text) → Text → Text → Option Text → Option Text
link_of header_value instance_domain path cursor = do
  c ← cursor
  header_value (
      codes "<https://"
      ++ (instance_domain ++ (path ++ (codes "?offset=" ++ (c ++ codes ">; rel=\"next\"")))))

module _ {S Item Response : Type 0} (st : Store S) (codec : Codec (List Item)) where
  -- The cached items, or what is collected and then cached, and whether they were cached.
  use_cached : Option (List Item) → TrendFeed Item Response → S → Option ((List Item × Bool) × S)
  use_cached (some cached) feed s = some ((cached, true), s)
  use_cached none feed s = do
    fresh ← feed.collect
    some ((fresh, false), st.set codec feed.cache_key fresh ttl s)

  unfoldable pub load : TrendFeed Item Response → S → Option ((List Item × Bool) × S)
  unfolding use_cached
  load feed s = let (cached, after) = st.get codec feed.cache_key s in use_cached cached feed after

  -- The spawned task, which runs at any time after a request that was served from the cache.
  unfoldable pub rebuild : TrendFeed Item Response → S → Option S
  rebuild feed s = do items ← feed.rebuild; some (st.set codec feed.cache_key items ttl s)

  -- `serve` up to the page, with whether a task is spawned.
  unfoldable pub serve_page :
      TrendFeed Item Response → Option Text → ℕ → S → Option ((Page Item × Bool) × S)
  unfolding load
  serve_page feed cursor limit s = do
    (loaded, after) ← load feed s
    some ((paginate loaded.0 cursor limit, loaded.1), after)

  unfoldable pub serve :
      (Text → Option Text)
      → Text
      → TrendFeed Item Response
      → Option Text
      → ℕ
      → S
      → Option ((Served Response × Bool) × S)
  unfolding serve_page
  serve header_value instance_domain feed cursor limit s = do
    (served, after) ← serve_page feed cursor limit s
    let page = served.0
    let link = link_of header_value instance_domain feed.path page.cursor
    some ((record { link = link; body = feed.map page.items }, served.1), after)
