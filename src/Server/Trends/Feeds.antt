-- ===== src/Server/Trends/Feeds.antt =====
-- The three trend feeds of apps/server/src/feeds: trending_statuses.rs, trending_links.rs and
-- trending_tags.rs. What the database and the providers answer is a parameter.
use mathlib.Core.Option
use fediway.Prelude.{
  ℕ, Bool, true, false, ◌||◌, ◌&&◌, ltb, ◌==◌, List, [], ◌∷◌, is_empty, Option, some, ◌>>=◌, String,
  ◌<>◌, map, if◌then◌else◌,
}
use fediway.Prelude.Int.{ℤ}
use fediway.Prelude.Sort.{sort_by}
use fediway.Entities.Cards.{card_of_link, tag_of}
use fediway.Entities.Types.{PreviewCard}
use fediway.Format.Links.{Tag as MastodonTag}
use fediway.Format.Remote.{Cleaner}
use fediway.Sources.CommonFeed.Types.{LinkResponse, QueryFilters, QueryResponse, TagResponse}
use fediway.Sources.CommonFeed.Fetch.{Answer, Provider, Request}
use fediway.Sources.CommonFeed.Collect.{
  PostsSource, new_source, with_filters, posts_source, links_source, tags_source,
}
use fediway.Prelude.Signed.{codes}
use fediway.Prelude.Float.{Float}
use fediway.Common.Types.{Link, Post, Tag, body}
use fediway.Feed.Filter
use fediway.Feed.Filter.{dedup_filter}
use fediway.Feed.Scorer.{diversity}
use fediway.Feed.Pipeline.{Source, Pipeline, execute}
use fediway.Feed.Pipeline.Builder
use fediway.Format.Characters.{Text}
use fediway.Server.Home.{author_handle, percent}
use fediway.Server.Trends.{TrendFeed}

-- `langs.sort()`: the order of the code points is that of the bytes of UTF-8.
abbrev text_le : Text → Text → Bool
text_le [] t = true
text_le (c ∷ s) [] = false
text_le (c ∷ s) (d ∷ t) = ltb c d || (c == d && text_le s t)

abbrev join : List String → String
join [] = ""
join (s ∷ []) = s
join (s ∷ t ∷ ss) = s <> ("," <> join (t ∷ ss))

-- `cache_key` of the three feeds, by what stands before the languages.
unfoldable pub cache_key : String → QueryFilters → String
unfolding sort_by
cache_key prefix filters =
    let langs = sort_by (λ s t. text_le (codes s) (codes t)) filters.language in
    prefix <> (if is_empty langs then "*" else join langs)

-- What a feed is made of: the providers that are bound to its route, if the query did not fail, and what
-- they answer.
pub record TrendInputs (Response : Type 0) : Type 0 where
  pub bound : Option (List (Provider × String))
  pub send : Request → Answer Response

abbrev pub url_of : Post → String
url_of p = (body p).url

abbrev pub provider_of : Link → String
provider_of link = Option.get_or link.provider_name ""

abbrev bound_sources :
    {A Item F : Type 0}
    → ((Request → Answer A) → PostsSource → Source Item F)
    → TrendInputs A
    → QueryFilters
    → List (Source Item F)
bound_sources source i filters =
    map (λ b. source i.send (with_filters (new_source b.0 b.1) filters)) (Option.get_or i.bound [])

module _ {F : Type 0} ⦃fl : Float F⦄ where
  -- The pipeline of the three feeds: sources, deduplication by a key, diversity by another.
  unfoldable pub trend_pipeline :
      {Item : Type 0}
      → String
      → (Item → String)
      → (Item → String)
      → List (Source Item F)
      → Pipeline Item (Unit {0}) F
  unfolding Builder.new Builder.name Builder.sources Builder.filter Builder.score Builder.build
      dedup_filter Filter.new diversity
  trend_pipeline name dedup_key diversity_key sources = Builder.build (
      Builder.score (diversity (record { penalty = percent 10; key_fn = diversity_key })) (
        Builder.filter (dedup_filter (Filter.new (λ c. dedup_key c.item)))
          (Builder.sources sources 100 (Builder.name name Builder.new))))

  -- `collect`, with the candidates' items.
  unfoldable pub items_of : {Item : Type 0} → Pipeline Item (Unit {0}) F → ℕ → Option (List Item)
  unfolding execute
  items_of pipeline limit = do
    result ← execute pipeline limit tt
    some (map (λ c. c.item) result.items)

  statuses_of : TrendInputs (QueryResponse F) → QueryFilters → Option (List Post)
  unfolding trend_pipeline items_of posts_source
  statuses_of i filters =
      items_of
        (trend_pipeline "trends/statuses" url_of author_handle
          (bound_sources posts_source i filters))
        100

  links_of : TrendInputs (LinkResponse F) → QueryFilters → Option (List Link)
  unfolding trend_pipeline items_of links_source
  links_of i filters =
      items_of
        (trend_pipeline "trends/links" (λ link. link.url) provider_of
          (bound_sources links_source i filters))
        7

  tags_of : TrendInputs (TagResponse F) → QueryFilters → Option (List Tag)
  unfolding trend_pipeline items_of tags_source
  tags_of i filters =
      items_of
        (trend_pipeline "trends/tags" (λ tag. tag.name) (λ tag. tag.name)
          (bound_sources tags_source i filters))
        100

  -- The three feeds. `later` is what the database and the providers answer when the feed is made again.
  unfoldable pub trending_statuses :
      {Status : Type 0}
      → (List Post → List Status)
      → TrendInputs (QueryResponse F)
      → TrendInputs (QueryResponse F)
      → QueryFilters
      → TrendFeed Post Status
  unfolding statuses_of cache_key
  trending_statuses from_posts now later filters = record {
    cache_key = cache_key "trends:statuses:" filters;
    path = codes "/api/v1/trends/statuses";
    collect = statuses_of now filters;
    rebuild = statuses_of later filters;
    map = from_posts;
  }

  unfoldable pub trending_links :
      Cleaner
      → (ℕ → ℤ)
      → TrendInputs (LinkResponse F)
      → TrendInputs (LinkResponse F)
      → QueryFilters
      → TrendFeed Link PreviewCard
  unfolding links_of cache_key card_of_link
  trending_links cleaner days_ago now later filters = record {
    cache_key = cache_key "trends:links:" filters;
    path = codes "/api/v1/trends/links";
    collect = links_of now filters;
    rebuild = links_of later filters;
    map = map (card_of_link cleaner days_ago);
  }

  unfoldable pub trending_tags :
      TrendInputs (TagResponse F)
      → TrendInputs (TagResponse F)
      → QueryFilters
      → TrendFeed Tag MastodonTag
  unfolding tags_of cache_key tag_of
  trending_tags now later filters = record {
    cache_key = cache_key "trends:tags:" filters;
    path = codes "/api/v1/trends/tags";
    collect = tags_of now filters;
    rebuild = tags_of later filters;
    map = map tag_of;
  }
