-- ===== src/State/Detail/Build.antt =====
-- `build_status` of crates/state/src/statuses/detail/row.rs: the rows of a status as Mastodon's entity.
use mathlib.Core.Option
use fediway.Prelude.{
  ℕ, ◌^◌, Bool, false, ◌&&◌, ◌||◌, not, List, [], ◌∷◌, ◌++◌, Option, none, some, String, ◌>>=◌, ltb,
  is_empty, is_some, map, if◌then◌else◌,
}
use fediway.Prelude.Int.{ℤ, pos_part}
use fediway.Prelude.Signed.{codes, to_text}
use fediway.Prelude.Decimal.{to_string}
use fediway.Prelude.Float.{Float}
use fediway.Prelude.Map.{Map, get, eq_ℤ, ℤ_eq}
use fediway.Common.Types.{DateTime}
use fediway.Common.Paperclip.{
  MediaConfig, avatar_url, header_url, media_attachment_url, media_thumbnail_url,
  preview_card_image_url,
}
use fediway.Server.Api.Json.{Json}
use fediway.Server.Api.Json
use fediway.Format.Characters.{Text, text_eq}
use fediway.Format.Links.{Mention, Tag}
use fediway.Format.Local.{format_local}
use fediway.Format.Remote.{Cleaner, format_remote}
use fediway.Entities.Types.{
  Account, MediaAttachment, meta_of, PreviewCard, public_approval, Status, status, no_quote,
}
use fediway.State.Detail.Row.{
  BaseRow, CardRow, card_kind_str, EmojiRow, Enrichment, MediaRow, media_kind_str, MentionRow,
  no_stats, non_empty,
}
use fediway.State.Detail.Emojis.{build_emojis, has_schema}

-- What the libraries compute: the sanitizer, the class of letters and digits, the links and the
-- shortcodes of a text, a calendar day as text, and a JSON number as a natural number.
pub record Library : Type 0 where
  pub cleaner : Cleaner
  pub is_alphanumeric : ℕ → Bool
  pub find_links : Text → List (ℕ × ℕ)
  pub captures : Text → List Text
  pub day_text : DateTime → Text
  pub as_u64 : Json → Option ℕ

-- `clone().filter(|s| !s.is_empty()).unwrap_or_else(...)`
abbrev pub filled_or : Option Text → Text → Text
filled_or none other = other
filled_or (some s) other = if is_empty s then other else s

-- `u64::try_from(n).unwrap_or(0)`
abbrev pub to_count : ℤ → ℕ
to_count n = pos_part n

abbrev pub id_in : List ℤ → ℤ → Bool
id_in [] id = false
id_in (x ∷ xs) id = eq_ℤ x id || id_in xs id

abbrev pub rows_of {ℓ} : {A : Type ℓ} → Option (List A) → List A
rows_of none = []
rows_of (some rows) = rows

-- `username@domain`, or the username alone.
abbrev pub address : Text → Option Text → Text
address username none = username
address username (some d) = username ++ (codes "@" ++ d)

abbrev profile : Text → Text → Text
profile instance_domain acct = codes "https://" ++ (instance_domain ++ (codes "/@" ++ acct))

unfoldable pub build_mention : Text → MentionRow → Mention
build_mention instance_domain row =
    let acct = address row.username row.domain in
    record {
      id = to_string row.account_id;
      username = row.username;
      url = filled_or row.url (profile instance_domain acct);
      acct = acct;
    }

abbrev is_actor : Option Text → Text → Bool
is_actor none kind = false
is_actor (some t) kind = text_eq t kind

abbrev pub or_else : Option Text → Option Text → Option Text
or_else none other = other
or_else (some s) other = some s

-- `file_meta_dimensions`: the width or the height of the original, if it is a `u32`.
unfoldable pub file_meta_dimension : Library → String → Option Json → Option ℕ
file_meta_dimension lib side meta =
    meta >>= Json.get "original" >>= Json.get side >>= lib.as_u64 >>= λ n.
    if ltb n (2 ^ 32) then some n else none

module _ (lib : Library) (instance_domain : Text) (media : MediaConfig) where
  unfoldable pub build_account : BaseRow → Map Text EmojiRow → Account
  build_account row emojis =
      let is_remote = is_some row.domain in
      let avatar_cached = is_remote && has_schema row.avatar_storage_schema_version in
      let header_cached = is_remote && has_schema row.header_storage_schema_version in
      let acct = address row.username row.domain in
      let avatar =
        avatar_url media row.account_id row.avatar_file_name row.avatar_remote_url avatar_cached in
      let header =
        header_url media row.account_id row.header_file_name (non_empty row.header_remote_url)
          header_cached in
      record {
        id = to_string row.account_id;
        username = row.username;
        acct = acct;
        url = filled_or row.account_url (profile instance_domain acct);
        uri =
            if is_empty row.account_uri
            then codes "https://" ++ (instance_domain ++ (codes "/users/" ++ row.username))
            else row.account_uri;
        display_name = lib.cleaner.sanitize_text row.display_name;
        note = lib.cleaner.sanitize_html row.note;
        avatar = avatar;
        avatar_static = avatar;
        header = header;
        header_static = header;
        locked = row.locked;
        bot =
            is_actor row.actor_type (codes "Service")
            || is_actor row.actor_type (codes "Application");
        group = is_actor row.actor_type (codes "Group");
        discoverable = row.discoverable;
        indexable = row.indexable;
        statuses_count = to_count row.statuses_count;
        followers_count = to_count row.followers_count;
        following_count = to_count row.following_count;
        created_at = row.account_created_at;
        fields =
            map
              (λ f. record {
                name = lib.cleaner.sanitize_text f.name;
                value = lib.cleaner.sanitize_html f.value;
                verified_at = f.verified_at;
              })
              (rows_of row.fields);
        emojis = build_emojis emojis media lib.captures (row.display_name ∷ row.note ∷ []);
        last_status_at = Option.map lib.day_text row.last_status_at;
      }

  unfoldable pub build_card : CardRow → PreviewCard
  build_card row = record {
    url = row.url;
    title = lib.cleaner.sanitize_text row.title;
    description = lib.cleaner.sanitize_text row.description;
    card_type = card_kind_str row.card_type;
    authors =
        if is_empty row.author_name
        then []
        else record { name = row.author_name; url = row.author_url } ∷ [];
    author_name = lib.cleaner.sanitize_text row.author_name;
    author_url = row.author_url;
    provider_name = lib.cleaner.sanitize_text row.provider_name;
    provider_url = row.provider_url;
    html = lib.cleaner.sanitize_html row.html;
    width = row.width;
    height = row.height;
    image =
        preview_card_image_url media row.id row.image_file_name
          (has_schema row.image_storage_schema_version);
    image_description = lib.cleaner.sanitize_text row.image_description;
    embed_url = non_empty row.embed_url;
    blurhash = row.blurhash;
    history = [];
  }

  abbrev tag_entity : Text → Tag
  tag_entity name = record {
    name = name;
    url = codes "https://" ++ (instance_domain ++ (codes "/tags/" ++ name));
    history = [];
  }

  -- The text of a local status is formatted, that of a remote one is cleaned.
  pub status_content : Option Text → Text → List Mention → List Tag → Option Text
  status_content none text mentions tags =
      format_local lib.is_alphanumeric lib.find_links text mentions tags instance_domain
  status_content (some domain) text mentions tags = some (format_remote lib.cleaner text)

  module _ {F : Type 0} ⦃fl : Float F⦄ where
    unfoldable pub build_media_attachment : MediaRow → MediaAttachment F
    build_media_attachment row =
        let cached = not (is_empty row.remote_url) && has_schema row.file_storage_schema_version in
        let url =
          media_attachment_url media row.id row.file_file_name (non_empty row.remote_url) cached in
        record {
          id = to_string row.id;
          media_type = media_kind_str row.media_type;
          url = url;
          preview_url =
              or_else (media_thumbnail_url media row.id row.thumbnail_file_name cached) url;
          remote_url = non_empty row.remote_url;
          meta =
              meta_of (file_meta_dimension lib "width" row.file_meta)
                (file_meta_dimension lib "height" row.file_meta);
          description = Option.map lib.cleaner.sanitize_text row.description;
          blurhash = row.blurhash;
        }

    -- `none` is a panic of `format_local`.
    unfoldable pub build_status : BaseRow → Enrichment → Option (Status F)
    unfolding status_content
    build_status row enrich =
        let stat = Option.get_or (get row.id enrich.stats) no_stats in
        let tag_list = map tag_entity (rows_of (get row.id enrich.tags)) in
        let mention_list =
          map (build_mention instance_domain) (rows_of (get row.id enrich.mentions)) in
        let fallback_url =
          codes "https://"
          ++ (instance_domain ++ (codes "/@" ++ (row.username ++ (codes "/" ++ to_text row.id)))) in
        let url = filled_or row.url fallback_url in
        status_content row.domain row.text mention_list tag_list >>= λ content. some (
          status
            (record {
              id = to_text row.id;
              uri = filled_or row.uri url;
              url = some url;
              created_at = row.created_at;
              edited_at = row.edited_at;
              content = content;
              text = some row.text;
              visibility = codes "public";
              language = row.language;
              sensitive = row.sensitive;
              spoiler_text = lib.cleaner.sanitize_text row.spoiler_text;
              in_reply_to_id = Option.map to_text row.in_reply_to_id;
              in_reply_to_account_id = Option.map to_text row.in_reply_to_account_id;
              account = build_account row enrich.emojis;
              media_attachments = map build_media_attachment (rows_of (get row.id enrich.media));
              mentions = mention_list;
              tags = tag_list;
              emojis =
                  build_emojis enrich.emojis media lib.captures (row.text ∷ row.spoiler_text ∷ []);
              reblogs_count = to_count stat.reblogs;
              favourites_count = to_count stat.favourites;
              replies_count = to_count stat.replies;
              quotes_count = to_count stat.quotes;
              favourited = id_in enrich.viewer.favourited row.id;
              reblogged = id_in enrich.viewer.reblogged row.id;
              muted = false;
              bookmarked = id_in enrich.viewer.bookmarked row.id;
              pinned = false;
              quote_approval = public_approval;
              card = Option.map build_card (get row.id enrich.cards);
            })
            no_quote)
