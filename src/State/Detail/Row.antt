-- ===== src/State/Detail/Row.antt =====
-- The rows of crates/state/src/statuses/detail/row.rs. A text is the list of its characters, an instant
-- its distance from the epoch, an identifier of a file a number that is not negative.
use fediway.Prelude.{ℕ, Bool, List, [], Option, none, some, is_empty, if◌then◌else◌}
use fediway.Prelude.Int.{ℤ, pos}
use fediway.Prelude.Signed.{codes}
use fediway.Prelude.Map.{Map}
use fediway.Server.Api.Json.{Json}
use fediway.Common.Types.{DateTime}
use fediway.Format.Characters.{Text}

pub record FieldRow : Type 0 where
  pub name : Text
  pub value : Text
  pub verified_at : Option DateTime

pub record BaseRow : Type 0 where
  pub id : ℤ
  pub account_id : ℕ
  pub uri : Option Text
  pub url : Option Text
  pub text : Text
  pub spoiler_text : Text
  pub sensitive : Bool
  pub language : Option Text
  pub in_reply_to_id : Option ℤ
  pub in_reply_to_account_id : Option ℤ
  pub created_at : DateTime
  pub edited_at : Option DateTime
  pub username : Text
  pub domain : Option Text
  pub display_name : Text
  pub note : Text
  pub account_url : Option Text
  pub account_uri : Text
  pub avatar_file_name : Option Text
  pub avatar_remote_url : Option Text
  pub header_file_name : Option Text
  pub header_remote_url : Text
  pub account_created_at : DateTime
  pub discoverable : Option Bool
  pub indexable : Bool
  pub locked : Bool
  pub actor_type : Option Text
  pub fields : Option (List FieldRow)
  pub avatar_storage_schema_version : Option ℤ
  pub header_storage_schema_version : Option ℤ
  pub statuses_count : ℤ
  pub following_count : ℤ
  pub followers_count : ℤ
  pub last_status_at : Option DateTime

pub record StatsRow : Type 0 where
  pub replies : ℤ
  pub reblogs : ℤ
  pub favourites : ℤ
  pub quotes : ℤ

-- `StatsRow::default`
abbrev pub no_stats : StatsRow
no_stats = record { replies = pos 0; reblogs = pos 0; favourites = pos 0; quotes = pos 0 }

pub record StatsTuple : Type 0 where
  pub status_id : ℤ
  pub replies_count : ℤ
  pub reblogs_count : ℤ
  pub favourites_count : ℤ
  pub quotes_count : ℤ

pub data MediaKind : Type 0 where
  image gifv video unknown audio : MediaKind

unfoldable pub media_kind_str : MediaKind → Text
media_kind_str image = codes "image"
media_kind_str gifv = codes "gifv"
media_kind_str video = codes "video"
media_kind_str unknown = codes "unknown"
media_kind_str audio = codes "audio"

pub record MediaRow : Type 0 where
  pub id : ℕ
  pub status_id : ℤ
  pub media_type : MediaKind
  pub description : Option Text
  pub remote_url : Text
  pub blurhash : Option Text
  pub file_file_name : Option Text
  pub file_meta : Option Json
  pub thumbnail_file_name : Option Text
  pub file_storage_schema_version : Option ℤ

pub data CardKind : Type 0 where
  link photo video_card rich : CardKind

unfoldable pub card_kind_str : CardKind → Text
card_kind_str link = codes "link"
card_kind_str photo = codes "photo"
card_kind_str video_card = codes "video"
card_kind_str rich = codes "rich"

pub record CardRow : Type 0 where
  pub status_id : ℤ
  pub id : ℕ
  pub url : Text
  pub title : Text
  pub description : Text
  pub card_type : CardKind
  pub html : Text
  pub author_name : Text
  pub author_url : Text
  pub provider_name : Text
  pub provider_url : Text
  pub image_file_name : Option Text
  pub image_description : Text
  pub width : ℤ
  pub height : ℤ
  pub embed_url : Text
  pub blurhash : Option Text
  pub image_storage_schema_version : Option ℤ

pub record MentionRow : Type 0 where
  pub status_id : ℤ
  pub account_id : ℕ
  pub username : Text
  pub domain : Option Text
  pub url : Option Text

pub record EmojiRow : Type 0 where
  pub id : ℕ
  pub shortcode : Text
  pub domain : Option Text
  pub image_file_name : Option Text
  pub image_remote_url : Option Text
  pub image_storage_schema_version : Option ℤ

pub record ViewerState : Type 0 where
  pub favourited : List ℤ
  pub bookmarked : List ℤ
  pub reblogged : List ℤ

-- `ViewerState::default`
abbrev pub no_viewer : ViewerState
no_viewer = record { favourited = []; bookmarked = []; reblogged = [] }

pub record Enrichment : Type 0 where
  pub stats : Map ℤ StatsRow
  pub media : Map ℤ (List MediaRow)
  pub tags : Map ℤ (List Text)
  pub cards : Map ℤ CardRow
  pub mentions : Map ℤ (List MentionRow)
  pub emojis : Map Text EmojiRow
  pub viewer : ViewerState

abbrev pub non_empty : Text → Option Text
non_empty s = if is_empty s then none else some s
