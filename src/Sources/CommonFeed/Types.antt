-- ===== src/Sources/CommonFeed/Types.antt =====
-- crates/sources/src/commonfeed/types.rs: the answers of a provider, and the filters of a request.
-- A timestamp is its distance from the epoch; an `i32` is the integer that it holds.
use fediway.Prelude.{Bool, List, [], Option, none, String, any, str_eq, if◌then◌else◌}
use fediway.Prelude.Int.{ℤ}
use fediway.Prelude.Map.{Map}
use fediway.Common.Types.{DateTime}

pub record Pagination : Type 0 where
  pub cursor : Option String
  pub has_more : Bool

pub record SizeVariant : Type 0 where
  pub url : String
  pub width : Option ℤ
  pub height : Option ℤ
  pub mime_type : Option String

pub record Sizes : Type 0 where
  pub small : Option SizeVariant
  pub medium : Option SizeVariant
  pub large : SizeVariant

pub record ImageObject : Type 0 where
  pub sizes : Sizes
  pub blurhash : Option String

pub record MediaOriginal : Type 0 where
  pub width : ℤ
  pub height : ℤ

pub record LinkPreviewResult : Type 0 where
  pub url : String
  pub title : String
  pub description : String
  pub link_type : String
  pub image : Option ImageObject
  pub provider_name : Option String
  pub author_name : Option String
  pub embed_html : Option String
  pub embed_url : Option String

pub record EngagementResult : Type 0 where
  pub likes : Option ℤ
  pub reposts : Option ℤ
  pub replies : Option ℤ

pub record EmojiResult : Type 0 where
  pub shortcode : String
  pub url : String
  pub static_url : Option String

pub record MediaResult : Type 0 where
  pub media_type : String
  pub alt : Option String
  pub image : Option ImageObject
  pub original : Option MediaOriginal
  pub sizes : Option Sizes
  pub poster : Option ImageObject

pub record AuthorResult : Type 0 where
  pub name : String
  pub handle : String
  pub url : String
  pub avatar : Option ImageObject
  pub emojis : Option (List EmojiResult)

pub record PostTagResult : Type 0 where
  pub name : String

-- The fields of `PostResult` that hold no other result.
pub record ResultFields (F : Type 0) : Type 0 where
  pub id : Option ℤ
  pub url : String
  pub protocol : String
  pub identifiers : Map String String
  pub content_type : String
  pub content : String
  pub text : String
  pub author : AuthorResult
  pub timestamp : DateTime
  pub language : Option String
  pub sensitive : Option Bool
  pub content_warning : Option String
  pub media : Option (List MediaResult)
  pub engagement : Option EngagementResult
  pub link : Option LinkPreviewResult
  pub tags : Option (List PostTagResult)
  pub emojis : Option (List EmojiResult)
  pub score : Option F

-- A result with the results that it replies to and quotes, at most one each.
mutual
  pub data PostResult (F : Type 0) : Type 0 where
    post_result : ResultFields F → MaybeResult F → MaybeResult F → PostResult F

  pub data MaybeResult (F : Type 0) : Type 0 where
    no_result : MaybeResult F
    boxed_result : PostResult F → MaybeResult F

pub record QueryResponse (F : Type 0) : Type 0 where
  pub results : List (PostResult F)
  pub pagination : Pagination

pub record EmbeddingRequest (F : Type 0) : Type 0 where
  pub vector : List F
  pub model : String

pub record TagHistoryItem : Type 0 where
  pub day : String
  pub uses : ℤ
  pub accounts : ℤ

pub record TagResult (F : Type 0) : Type 0 where
  pub name : String
  pub post_count : ℤ
  pub account_count : ℤ
  pub history : Option (List TagHistoryItem)
  pub score : Option F

pub record TagResponse (F : Type 0) : Type 0 where
  pub results : List (TagResult F)
  pub pagination : Pagination

pub record LinkResult (F : Type 0) : Type 0 where
  pub url : String
  pub title : String
  pub description : String
  pub link_type : String
  pub image : Option ImageObject
  pub provider_name : Option String
  pub author_name : Option String
  pub embed_html : Option String
  pub embed_url : Option String
  pub language : Option String
  pub published_at : Option DateTime
  pub favicon : Option ImageObject
  pub post_count : ℤ
  pub account_count : ℤ
  pub score : Option F

pub record LinkResponse (F : Type 0) : Type 0 where
  pub results : List (LinkResult F)
  pub pagination : Pagination

pub record QueryFilters : Type 0 where
  pub language : List String
  pub tag : Option String
  pub link : Option String

-- `QueryFilters::default`
abbrev pub no_filters : QueryFilters
no_filters = record { language = []; tag = none; link = none }

-- `QueryFilters::for_provider`
unfoldable pub for_provider : QueryFilters → List String → QueryFilters
for_provider f supported = record {
  language = if any (λ s. str_eq s "language") supported then f.language else [];
  tag = if any (λ s. str_eq s "tag") supported then f.tag else none;
  link = if any (λ s. str_eq s "link") supported then f.link else none;
}
