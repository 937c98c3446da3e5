-- ===== src/Entities/FromPost.antt =====
-- How crates/mastodon/src/status.rs makes a status of a post.
pub mod Shown
use mathlib.Core.Option
use fediway.Prelude.{
  ℕ, zero, suc, Bool, false, ◌||◌, List, [], ◌∷◌, ◌++◌, Option, none, some, String, map, get_elem?,
  ◌==◌, if◌then◌else◌,
}
use fediway.Prelude.Decimal.{to_string}
use fediway.Prelude.Int.{pos}
use fediway.Prelude.Signed.{codes}
use fediway.Prelude.Float.{Float}
use fediway.Common.Types.{CustomEmoji as PostEmoji}
use fediway.Common.Types.{
  Author, Content, DateTime, Media, Post, post, MaybePost, no_post, boxed, body,
}
use fediway.Format.Characters.{Text, split_char, text_eq, trim_start}
use fediway.Format.Links.{Tag}
use fediway.Format.Remote.{Cleaner, format_remote}
use fediway.Entities.Cards.{card_of_preview}
use fediway.Entities.Types.{
  Account, CustomEmoji, MediaAttachment, meta_of, public_approval, StatusFields, Status, status,
  Quote, no_quote, quoting,
}

abbrev pub texts : Option String → Option Text
texts = Option.map codes

convert_emoji : PostEmoji → CustomEmoji
convert_emoji e = record {
  shortcode = codes e.shortcode;
  url = codes e.url;
  static_url = Option.get_or (texts e.static_url) (codes e.url);
  visible_in_picker = false;
}

-- `handle.trim_start_matches('@')`
abbrev pub acct_of : String → Text
acct_of handle = trim_start b'@' (codes handle)

-- `split('@').next()`, which always has a part.
abbrev pub before_at : Text → Text
before_at acct = Option.get_or (get_elem? (split_char b'@' acct) 0) acct

abbrev pub or_none : Option String → Text
or_none s = Option.get_or (texts s) []

-- `normalize_media_type`
unfoldable pub normalize_media_type : Text → Text
normalize_media_type t =
    if text_eq t (codes "image")
      || text_eq t (codes "video")
      || text_eq t (codes "gifv")
      || text_eq t (codes "audio")
    then t
    else codes "unknown"

module _ (cleaner : Cleaner) where
  build_account : Author → DateTime → Account
  unfolding convert_emoji
  build_account author published_at =
      let acct = acct_of author.handle in
      let avatar = or_none author.avatar_url in
      let header = or_none author.header_url in
      record {
        id = acct;
        username = before_at acct;
        acct = acct;
        url = codes author.url;
        uri = codes author.url;
        display_name = cleaner.sanitize_text (codes author.display_name);
        note = [];
        avatar = avatar;
        avatar_static = avatar;
        header = header;
        header_static = header;
        locked = false;
        bot = false;
        group = false;
        discoverable = none;
        indexable = false;
        statuses_count = 0;
        followers_count = 0;
        following_count = 0;
        created_at = published_at;
        fields = [];
        emojis = map convert_emoji author.emojis;
        last_status_at = none;
      }

  build_tag : String → Tag
  build_tag name =
      let sanitized = cleaner.sanitize_text (codes name) in
      record { name = sanitized; url = codes "/tags/" ++ sanitized; history = [] }

  -- The address and the author of the post that is replied to.
  reply_id : MaybePost → Option Text
  reply_id no_post = none
  reply_id (boxed p) = some (codes (body p).url)

  reply_account_id : MaybePost → Option Text
  reply_account_id no_post = none
  reply_account_id (boxed p) = some (acct_of (body p).author.handle)

  module _ {F : Type 0} ⦃fl : Float F⦄ where
    build_media_attachment : ℕ → Media → MediaAttachment F
    build_media_attachment i m = record {
      id = codes "media_" ++ to_string i;
      media_type = normalize_media_type (codes m.media_type);
      url = some (codes m.url);
      preview_url = texts m.thumbnail_url;
      remote_url = none;
      meta = meta_of m.width m.height;
      description = Option.map cleaner.sanitize_text (texts m.alt);
      blurhash = texts m.blurhash;
    }

    -- `.iter().enumerate()`
    build_attachments : ℕ → List Media → List (MediaAttachment F)
    build_attachments i [] = []
    build_attachments i (m ∷ ms) = build_media_attachment i m ∷ build_attachments (suc i) ms

    unfoldable pub status_fields : Content → MaybePost → StatusFields F
    unfolding build_account build_tag reply_id reply_account_id build_attachments
        build_media_attachment
    status_fields p reply_to = record {
      id = codes p.url;
      uri = codes p.url;
      url = some (codes p.url);
      created_at = p.published_at;
      edited_at = none;
      content = format_remote cleaner (codes p.content);
      text = some (codes p.text);
      visibility = codes "public";
      language = texts p.language;
      sensitive = p.sensitive;
      spoiler_text = cleaner.sanitize_text (or_none p.content_warning);
      in_reply_to_id = reply_id reply_to;
      in_reply_to_account_id = reply_account_id reply_to;
      account = build_account p.author p.published_at;
      media_attachments = build_attachments 0 p.media;
      mentions = [];
      tags = map build_tag p.tags;
      emojis = map convert_emoji p.emojis;
      reblogs_count = p.engagement.reposts;
      favourites_count = p.engagement.likes;
      replies_count = p.engagement.replies;
      quotes_count = 0;
      favourited = false;
      reblogged = false;
      muted = false;
      bookmarked = false;
      pinned = false;
      quote_approval = public_approval;
      card = Option.map card_of_preview p.link;
    }

    unfoldable mutual
      pub status_of : Post → Status F
      status_of (post p reply_to quote) = status (status_fields p reply_to) (quote_of quote)

      pub quote_of : MaybePost → Quote F
      quote_of no_post = no_quote
      quote_of (boxed p) = quoting (codes "accepted") (status_of p)

    set_identity : Text → Text → Status F → Status F
    set_identity id uri (status s quote) = status (record s { id = id; uri = uri }) quote

    -- `Status::from_post`
    unfoldable pub from_post : Post → Text → Status F
    unfolding set_identity
    from_post p status_id =
        let uri = Option.get_or (texts (body p).uri) (codes (body p).url) in
        set_identity status_id uri (status_of p)
