-- ===== src/Sources/CommonFeed/Posts.antt =====
-- crates/sources/src/commonfeed/posts.rs: a provider's result as a post of the feed.
pub mod Mirror
use mathlib.Core.Option
use fediway.Prelude.{ℕ, ◌-◌, ◌%◌, ◌^◌, Bool, false, List, [], ◌∷◌, Option, none, some, String, map}
use fediway.Prelude.Int.{ℤ, pos, negsuc}
use fediway.Prelude.Map.{get, String_eq}
use fediway.Prelude.Float.{Float}
use fediway.Common.Types.{
  Author, CardPreview, Content, CustomEmoji, Engagement, Media, Post, post, MaybePost, no_post,
  boxed,
}
use fediway.Feed.Candidate.{Candidate}
use fediway.Feed.Candidate
use fediway.Sources.CommonFeed.Types.{
  AuthorResult, EmojiResult, EngagementResult, ImageObject, LinkPreviewResult, MediaOriginal,
  MediaResult, PostResult, post_result, MaybeResult, no_result, boxed_result, PostTagResult,
  ResultFields, Sizes,
}

-- `unwrap_or_default` of an optional list.
abbrev pub or_empty {ℓ} : {A : Type ℓ} → Option (List A) → List A
or_empty none = []
or_empty (some xs) = xs

-- `Option::or`
abbrev pub or {ℓ} : {A : Type ℓ} → Option A → Option A → Option A
or none other = other
or (some a) other = some a

abbrev pub and_then {ℓ κ} : {A : Type ℓ} {B : Type κ} → Option A → (A → Option B) → Option B
and_then none f = none
and_then (some a) f = f a

abbrev pub keep_some {ℓ} : {A : Type ℓ} → Option A → List A → List A
keep_some none xs = xs
keep_some (some x) xs = x ∷ xs

abbrev pub filter_map {ℓ κ} : {A : Type ℓ} {B : Type κ} → (A → Option B) → List A → List B
filter_map f [] = []
filter_map f (x ∷ xs) = keep_some (f x) (filter_map f xs)

-- `i32::max(0)`, and `i32::cast_unsigned`, which keeps the bits.
abbrev pub max_zero : ℤ → ℤ
max_zero (pos n) = pos n
max_zero (negsuc n) = pos 0

abbrev pub cast_unsigned : ℤ → ℕ
cast_unsigned (pos n) = n % 2 ^ 32
cast_unsigned (negsuc n) = 2 ^ 32 - 1 - n % 2 ^ 32

unfoldable pub emoji_from_result : EmojiResult → CustomEmoji
emoji_from_result e = record {
  shortcode = e.shortcode;
  url = e.url;
  static_url = or e.static_url (some e.url);
}

abbrev pub ImageInfo : Type 0
ImageInfo = Option String × Option ℤ × Option ℤ × Option String

-- The URL, the measures and the blurhash of the large variant.
abbrev pub image_info : Option ImageObject → ImageInfo
image_info none = (none, none, none, none)
image_info (some img) =
    (some img.sizes.large.url, img.sizes.large.width, img.sizes.large.height, img.blurhash)

unfoldable pub card_from_link_preview : LinkPreviewResult → CardPreview
card_from_link_preview link =
    let (image_url, image_width, image_height, blurhash) = image_info link.image in
    record {
      url = link.url;
      title = link.title;
      description = link.description;
      link_type = link.link_type;
      author_name = link.author_name;
      provider_name = link.provider_name;
      image_url = image_url;
      image_width = image_width;
      image_height = image_height;
      blurhash = blurhash;
      embed_url = link.embed_url;
      embed_html = link.embed_html;
    }

-- `(url, mime_type, thumbnail_url, blurhash)`
abbrev pub MediaFile : Type 0
MediaFile = String × Option String × Option String × Option String

abbrev pub poster_info : Option ImageObject → Option String × Option String
poster_info none = (none, none)
poster_info (some p) = (some p.sizes.large.url, p.blurhash)

abbrev pub media_file : Option ImageObject → Option Sizes → Option ImageObject → Option MediaFile
media_file (some img) sizes poster = some (
  img.sizes.large.url,
  img.sizes.large.mime_type,
  Option.map (λ s. s.url) img.sizes.small,
  img.blurhash,
)
media_file none (some sizes) poster =
    let (thumb, blur) = poster_info poster in
    some (sizes.large.url, sizes.large.mime_type, thumb, blur)
media_file none none poster = none

abbrev pub measures : Option MediaOriginal → Option ℕ × Option ℕ
measures none = (none, none)
measures (some o) =
    (some (cast_unsigned (max_zero o.width)), some (cast_unsigned (max_zero o.height)))

abbrev pub media_of : MediaResult → MediaFile → Media
media_of m (url, mime_type, thumbnail_url, blurhash) =
    let (width, height) = measures m.original in
    record {
      media_type = m.media_type;
      url = url;
      alt = m.alt;
      mime_type = mime_type;
      width = width;
      height = height;
      blurhash = blurhash;
      thumbnail_url = thumbnail_url;
    }

unfoldable pub media_from_result : MediaResult → Option Media
media_from_result m = Option.map (media_of m) (media_file m.image m.sizes m.poster)

-- A count that is missing, or negative, is zero.
abbrev pub count_of : Option EngagementResult → (EngagementResult → Option ℤ) → ℕ
count_of engagement field =
    cast_unsigned (max_zero (Option.get_or (and_then engagement field) (pos 0)))

abbrev pub author_from_result : AuthorResult → Author
author_from_result a = record {
  handle = a.handle;
  display_name = a.name;
  url = a.url;
  avatar_url = Option.map (λ img. img.sizes.large.url) a.avatar;
  header_url = none;
  emojis = map emoji_from_result (or_empty a.emojis);
}

unfoldable pub content_from_result : {F : Type 0} → ResultFields F → String → Content
content_from_result result provider_domain = record {
  provider_id = result.id;
  provider_domain = some provider_domain;
  url = result.url;
  uri = get result.protocol result.identifiers;
  content = result.content;
  text = result.text;
  author = author_from_result result.author;
  published_at = result.timestamp;
  language = result.language;
  sensitive = Option.get_or result.sensitive false;
  content_warning = result.content_warning;
  media = filter_map media_from_result (or_empty result.media);
  engagement = record {
    replies = count_of result.engagement (λ e. e.replies);
    reposts = count_of result.engagement (λ e. e.reposts);
    likes = count_of result.engagement (λ e. e.likes);
  };
  link = Option.map card_from_link_preview result.link;
  tags = map (λ t. t.name) (or_empty result.tags);
  emojis = map emoji_from_result (or_empty result.emojis);
}

unfoldable mutual
  pub post_from_result : {F : Type 0} → PostResult F → String → Post
  post_from_result (post_result result reply_to quote) provider_domain =
      post (content_from_result result provider_domain) (maybe_from_result reply_to provider_domain)
        (maybe_from_result quote provider_domain)

  pub maybe_from_result : {F : Type 0} → MaybeResult F → String → MaybePost
  maybe_from_result no_result provider_domain = no_post
  maybe_from_result (boxed_result result) provider_domain =
      boxed (post_from_result result provider_domain)

abbrev pub fields : {F : Type 0} → PostResult F → ResultFields F
fields (post_result result reply_to quote) = result

module _ {F : Type 0} ⦃fl : Float F⦄ where
  unfoldable pub into_candidate_with_source : PostResult F → String → String → Candidate Post F
  into_candidate_with_source result provider_domain source =
      let score = Option.get_or (fields result).score fl.zero in
      let candidate = Candidate.new (post_from_result result provider_domain) source in
      record candidate { score = score }
