-- ===== src/Common/Types.antt =====
-- crates/common/src/types.rs and crates/common/src/ids.rs. An instant of chrono is its distance from
-- the epoch in nanoseconds; the fixed-width integers are the numbers they hold.
use fediway.Prelude.{ℕ, Bool, Option, String, List}
use fediway.Prelude.Int.{ℤ}

abbrev pub DateTime : Type 0
DateTime = ℤ

pub record AccountId : Type 0 where
  pub id : ℤ

pub record CustomEmoji : Type 0 where
  pub shortcode : String
  pub url : String
  pub static_url : Option String

pub record CardPreview : Type 0 where
  pub url : String
  pub title : String
  pub description : String
  pub link_type : String
  pub author_name : Option String
  pub provider_name : Option String
  pub image_url : Option String
  pub image_width : Option ℤ
  pub image_height : Option ℤ
  pub blurhash : Option String
  pub embed_url : Option String
  pub embed_html : Option String

pub record Author : Type 0 where
  pub handle : String
  pub display_name : String
  pub url : String
  pub avatar_url : Option String
  pub header_url : Option String
  pub emojis : List CustomEmoji

pub record Media : Type 0 where
  pub media_type : String
  pub url : String
  pub alt : Option String
  pub mime_type : Option String
  pub width : Option ℕ
  pub height : Option ℕ
  pub blurhash : Option String
  pub thumbnail_url : Option String

pub record Engagement : Type 0 where
  pub replies : ℕ
  pub reposts : ℕ
  pub likes : ℕ

-- The fields of `Post` that hold no post.
pub record Content : Type 0 where
  pub provider_id : Option ℤ
  pub provider_domain : Option String
  pub url : String
  pub uri : Option String
  pub content : String
  pub text : String
  pub author : Author
  pub published_at : DateTime
  pub language : Option String
  pub sensitive : Bool
  pub content_warning : Option String
  pub media : List Media
  pub engagement : Engagement
  pub link : Option CardPreview
  pub tags : List String
  pub emojis : List CustomEmoji

-- A post with the posts that it replies to and quotes, at most one each.
mutual
  pub data Post : Type 0 where
    post : Content → MaybePost → MaybePost → Post

  pub data MaybePost : Type 0 where
    no_post : MaybePost
    boxed : Post → MaybePost

abbrev pub body : Post → Content
body (post fields reply_to quote) = fields

-- What the trending pages show.
pub record TagHistory : Type 0 where
  pub day : String
  pub uses : ℤ
  pub accounts : ℤ

pub record Tag : Type 0 where
  pub name : String
  pub url : String
  pub history : List TagHistory

pub record Link : Type 0 where
  pub url : String
  pub title : String
  pub description : String
  pub link_type : String
  pub author_name : Option String
  pub provider_name : Option String
  pub image_url : Option String
  pub image_width : Option ℤ
  pub image_height : Option ℤ
  pub blurhash : Option String
  pub embed_url : Option String
  pub embed_html : Option String
  pub post_count : ℤ
  pub account_count : ℤ
