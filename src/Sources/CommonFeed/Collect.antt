-- ===== src/Sources/CommonFeed/Collect.antt =====
-- The sources of crates/sources/src/commonfeed: posts.rs, recommended.rs, links.rs and tags.rs. Each
-- takes what the HTTP client answers as an argument.
use mathlib.Core.Option
use fediway.Prelude.{List, [], Option, none, some, String, ◌<>◌, map}
use fediway.Prelude.Float.{Float}
use fediway.Common.Types.{Post, Tag, Link}
use fediway.Feed.Candidate
use fediway.Feed.Candidate.{Candidate}
use fediway.Feed.Pipeline.{Source}
use fediway.Server.Api.Json.{Json}
use fediway.Sources.CommonFeed.Types.{
  EmbeddingRequest, LinkResponse, LinkResult, QueryFilters, QueryResponse, TagResponse, TagResult,
  no_filters,
}
use fediway.Sources.CommonFeed.Posts.{image_info, into_candidate_with_source, or_empty}
use fediway.Sources.CommonFeed.Fetch.{Answer, Provider, Request, fetch_json}

-- The results of a response, none where there is no response.
abbrev pub results_of {ℓ κ} : {A : Type ℓ} {B : Type κ} → (A → List B) → Option A → List B
results_of f none = []
results_of f (some response) = f response

pub record PostsSource : Type 0 where
  pub algorithm : String
  pub provider : Provider
  pub filters : QueryFilters

-- `TagsSource` and `LinksSource` have the same fields.
abbrev pub TagsSource : Type 0
TagsSource = PostsSource

abbrev pub LinksSource : Type 0
LinksSource = PostsSource

-- `PostsSource::new`, and those of the other two.
abbrev pub new_source : Provider → String → PostsSource
new_source provider algorithm = record {
  algorithm = algorithm;
  provider = provider;
  filters = no_filters;
}

abbrev pub with_filters : PostsSource → QueryFilters → PostsSource
with_filters s filters = record s { filters = filters }

pub record RecommendedSource (F : Type 0) : Type 0 where
  pub provider : Provider
  pub algorithm : String
  pub filters : QueryFilters
  pub embedding : EmbeddingRequest F

module _ {F : Type 0} where
  abbrev pub new_recommended : Provider → String → List F → String → RecommendedSource F
  new_recommended provider algorithm vector model = record {
    provider = provider;
    algorithm = algorithm;
    filters = no_filters;
    embedding = record { vector = vector; model = model };
  }

module _ {F : Type 0} ⦃fl : Float F⦄ where
  unfoldable pub posts_source : (Request → Answer (QueryResponse F)) → PostsSource → Source Post F
  posts_source send s = record {
    name = "commonfeed/posts";
    collect = λ limit.
        results_of
          (λ response.
            map (λ p. into_candidate_with_source p s.provider.domain "commonfeed/posts")
              response.results)
          (fetch_json send s.provider "posts" s.algorithm s.filters none limit);
  }

  -- `to_value` is the derived `Serialize` of an embedding.
  unfoldable pub recommended_source :
      (EmbeddingRequest F → Json)
      → (Request → Answer (QueryResponse F))
      → RecommendedSource F
      → Source Post F
  recommended_source to_value send s = record {
    name = "commonfeed/recommended";
    collect = λ limit.
        results_of
          (λ response.
            map (λ p. into_candidate_with_source p s.provider.domain "commonfeed/recommended")
              response.results)
          (fetch_json send s.provider "posts" s.algorithm s.filters (some (to_value s.embedding))
            limit);
  }

  unfoldable pub link_candidate : LinkResult F → Candidate Link F
  link_candidate result =
      let score = Option.get_or result.score fl.zero in
      let (image_url, image_width, image_height, blurhash) = image_info result.image in
      let link : Link = record {
        url = result.url;
        title = result.title;
        description = result.description;
        link_type = result.link_type;
        author_name = result.author_name;
        provider_name = result.provider_name;
        image_url = image_url;
        image_width = image_width;
        image_height = image_height;
        blurhash = blurhash;
        embed_url = result.embed_url;
        embed_html = result.embed_html;
        post_count = result.post_count;
        account_count = result.account_count;
      } in
      record (Candidate.new link "commonfeed/links") { score = score }

  unfoldable pub links_source : (Request → Answer (LinkResponse F)) → LinksSource → Source Link F
  links_source send s = record {
    name = "commonfeed/links";
    collect = λ limit.
        results_of (λ response. map link_candidate response.results)
          (fetch_json send s.provider "links" s.algorithm s.filters none limit);
  }

  unfoldable pub tag_candidate : TagResult F → Candidate Tag F
  tag_candidate result =
      let score = Option.get_or result.score fl.zero in
      let history =
        map (λ h. record { day = h.day; uses = h.uses; accounts = h.accounts })
          (or_empty result.history) in
      let tag : Tag = record {
        name = result.name;
        url = "/tags/" <> result.name;
        history = history;
      } in
      record (Candidate.new tag "commonfeed/tags") { score = score }

  unfoldable pub tags_source : (Request → Answer (TagResponse F)) → TagsSource → Source Tag F
  tags_source send s = record {
    name = "commonfeed/tags";
    collect = λ limit.
        results_of (λ response. map tag_candidate response.results)
          (fetch_json send s.provider "tags" s.algorithm s.filters none limit);
  }
