-- ===== src/Entities/Types.antt =====
-- The entities of crates/mastodon/src: status.rs, account.rs, media_attachment.rs, preview_card.rs and
-- quote.rs. Their texts are lists of characters.
use fediway.Prelude.{ℕ, Bool, ◌&&◌, List, [], ◌∷◌, Option, none, some, ltb, if◌then◌else◌}
use fediway.Prelude.Int.{ℤ}
use fediway.Prelude.Signed.{codes}
use fediway.Prelude.Float.{Float}
use fediway.Common.Types.{DateTime}
use fediway.Format.Characters.{Text}
use fediway.Format.Links.{Mention, Tag}

pub record CustomEmoji : Type 0 where
  pub shortcode : Text
  pub url : Text
  pub static_url : Text
  pub visible_in_picker : Bool

pub record Field : Type 0 where
  pub name : Text
  pub value : Text
  pub verified_at : Option DateTime

pub record Account : Type 0 where
  pub id : Text
  pub username : Text
  pub acct : Text
  pub url : Text
  pub uri : Text
  pub display_name : Text
  pub note : Text
  pub avatar : Text
  pub avatar_static : Text
  pub header : Text
  pub header_static : Text
  pub locked : Bool
  pub bot : Bool
  pub group : Bool
  pub discoverable : Option Bool
  pub indexable : Bool
  pub statuses_count : ℕ
  pub followers_count : ℕ
  pub following_count : ℕ
  pub created_at : DateTime
  pub fields : List Field
  pub emojis : List CustomEmoji
  pub last_status_at : Option Text

pub record MediaMetaDimensions (F : Type 0) : Type 0 where
  pub width : ℕ
  pub height : ℕ
  pub aspect : F

pub record MediaMeta (F : Type 0) : Type 0 where
  pub original : Option (MediaMetaDimensions F)
  pub small : Option (MediaMetaDimensions F)

pub record MediaAttachment (F : Type 0) : Type 0 where
  pub id : Text
  pub media_type : Text
  pub url : Option Text
  pub preview_url : Option Text
  pub remote_url : Option Text
  pub meta : Option (MediaMeta F)
  pub description : Option Text
  pub blurhash : Option Text

pub record PreviewCardAuthor : Type 0 where
  pub name : Text
  pub url : Text

pub record PreviewCardHistory : Type 0 where
  pub day : Text
  pub accounts : Text
  pub uses : Text

pub record PreviewCard : Type 0 where
  pub url : Text
  pub title : Text
  pub description : Text
  pub card_type : Text
  pub authors : List PreviewCardAuthor
  pub author_name : Text
  pub author_url : Text
  pub provider_name : Text
  pub provider_url : Text
  pub html : Text
  pub width : ℤ
  pub height : ℤ
  pub image : Option Text
  pub image_description : Text
  pub embed_url : Option Text
  pub blurhash : Option Text
  pub history : List PreviewCardHistory

pub record QuoteApproval : Type 0 where
  pub automatic : List Text
  pub manual : List Text
  pub current_user : Text

-- `QuoteApproval::public`
abbrev pub public_approval : QuoteApproval
public_approval = record {
  automatic = codes "public" ∷ [];
  manual = [];
  current_user = codes "automatic";
}

-- The fields of `Status` that hold no status and that are not always empty (`poll`, `filtered`).
pub record StatusFields (F : Type 0) : Type 0 where
  pub id : Text
  pub uri : Text
  pub url : Option Text
  pub created_at : DateTime
  pub edited_at : Option DateTime
  pub content : Text
  pub text : Option Text
  pub visibility : Text
  pub language : Option Text
  pub sensitive : Bool
  pub spoiler_text : Text
  pub in_reply_to_id : Option Text
  pub in_reply_to_account_id : Option Text
  pub account : Account
  pub media_attachments : List (MediaAttachment F)
  pub mentions : List Mention
  pub tags : List Tag
  pub emojis : List CustomEmoji
  pub reblogs_count : ℕ
  pub favourites_count : ℕ
  pub replies_count : ℕ
  pub quotes_count : ℕ
  pub favourited : Bool
  pub reblogged : Bool
  pub muted : Bool
  pub bookmarked : Bool
  pub pinned : Bool
  pub quote_approval : QuoteApproval
  pub card : Option PreviewCard

-- A status with the one it quotes and the state of the quote; `reblog` is none wherever one is made.
mutual
  pub data Status (F : Type 0) : Type 0 where
    status : StatusFields F → Quote F → Status F

  pub data Quote (F : Type 0) : Type 0 where
    no_quote : Quote F
    quoting : Text → Status F → Quote F

abbrev pub fields_of : {F : Type 0} → Status F → StatusFields F
fields_of (status s quote) = s

-- `MediaMetaDimensions::new`
module _ {F : Type 0} ⦃fl : Float F⦄ where
  unfoldable pub dimensions : ℕ → ℕ → MediaMetaDimensions F
  dimensions width height = record {
    width = width;
    height = height;
    aspect = if ltb 0 height then fl.div (fl.of_nat width) (fl.of_nat height) else fl.of_nat 1;
  }

  -- The measures of a file, where both are known and positive.
  abbrev pub meta_of : Option ℕ → Option ℕ → Option (MediaMeta F)
  meta_of none height = none
  meta_of (some w) none = none
  meta_of (some w) (some h) =
      if ltb 0 w && ltb 0 h
      then some (record { original = some (dimensions w h); small = none })
      else none
