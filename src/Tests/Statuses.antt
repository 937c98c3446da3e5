-- ===== src/Tests/Statuses.antt =====
-- A provider's results, the rows of two statuses, and the page that is made of them.
use mathlib.Core.Option
use fediway.Prelude.{
  ℕ, ◌≡◌, refl, true, false, [], ◌∷◌, List, Option, none, some, String, arith, min, display, filter,
  map, All, All-map, All-filter, if◌then◌else◌,
}
use fediway.Prelude.Int.{ℤ, pos, negsuc}
use fediway.Prelude.Signed.{codes}
use fediway.Prelude.Signed.Printed.{IsI64}
use fediway.Prelude.Map.{get, String_eq, Map}
use fediway.Prelude.Result.{Result, ok, err}
use fediway.Common.Paperclip.{MediaConfig, custom_emoji_url}
use fediway.Server.Api.Json.{Json, number, text, null}
use fediway.Server.Api.Json
use fediway.Format.Characters.{Text}
use fediway.Format.Remote.{Cleaner}
use fediway.Entities.Types.{fields_of, Status}
use fediway.Entities.FromPost.{from_post, texts}
use fediway.Entities.FromPost.Shown.{Shows, from_post-post_from_result}
use fediway.Sources.FeedItem.{FeedItem, local, remote}
use fediway.Sources.CommonFeed.Types.{
  QueryFilters, PostResult, post_result, no_result, boxed_result, ResultFields,
}
use fediway.Sources.CommonFeed.Posts.{filter_map, post_from_result}
use fediway.Sources.CommonFeed.Fetch.{Provider, request}
use fediway.Sources.CommonFeed.Fetch.Supported.{asked, language_value, supports, request-supports}
use fediway.State.Detail.Row.{BaseRow, EmojiRow}
use fediway.State.Detail.Emojis.{build_emojis, emoji_of}
use fediway.State.Detail.Build.{Library, id_in}
use fediway.State.Detail.Fetch.{Outcome, done, ◌>>=◌, Queries, collect_rows, keyed, fetch_by_ids}
use fediway.State.Detail.Fetch.Ensures.{Ensures}
use fediway.State.Detail.Fetch.Quotes.{IsQuoting, fetch_by_ids-IsQuoting}
use fediway.Server.Statuses.{Mappings, provider_pairs, to_statuses}
use fediway.Server.Statuses.Order.{wanted_ids, wanted_posts, shown, entity_in, to_statuses-shown}
use fediway.Server.Auth.{TokenRow, account_required, account_optional, extract_token}
use fediway.Server.Auth.Agree.{demanded, Owns, account_required-account_optional}
use fediway.Tests.Scores.{hundredths}

-- A provider that knows languages and tags.
abbrev provider : Provider
provider = record {
  domain = "p.net";
  base_url = "https://p.net";
  api_key = "key";
  max_results = 20;
  supported_filters = "language" ∷ "tag" ∷ [];
}

abbrev filters : QueryFilters
filters = record { language = "en" ∷ []; tag = some "rust"; link = some "https://b.net" }

request-supports_example :
    let body = (request provider "posts" "latest" filters none 50).body in
    (asked body "language"
      ≡ (if supports provider "language" then language_value filters.language else none))
    × (asked body "tag" ≡ (if supports provider "tag" then Option.map text filters.tag else none))
    × (asked body "link"
        ≡ (if supports provider "link" then Option.map text filters.link else none))
    × (Json.get "limit" body ≡ some (number (display (pos (min 50 provider.max_results)))))
request-supports_example = request-supports provider "posts" "latest" filters none 50

-- A sanitizer that leaves everything as it is.
abbrev plain : Cleaner
plain = record {
  sanitize_html = λ s. s;
  sanitize_text = λ s. s;
  replace_open_headings = λ s. s;
  replace_close_headings = λ s. s;
}

abbrev result : String → ResultFields ℕ
result url = record {
  id = some (pos 5);
  url = url;
  protocol = "activitypub";
  identifiers = ("activitypub", "https://b.net/notes/5") ∷ [];
  content_type = "text/html";
  content = "<p>hello</p>";
  text = "hello";
  author = record {
    name = "Ann";
    handle = "@ann@b.net";
    url = "https://b.net/@ann";
    avatar = none;
    emojis = none;
  };
  timestamp = pos 0;
  language = some "en";
  sensitive = none;
  content_warning = none;
  media = none;
  engagement = some (record { likes = some (pos 3); reposts = some (negsuc 0); replies = none });
  link = none;
  tags = none;
  emojis = none;
  score = none;
}

-- A result that quotes another.
abbrev quoting_result : PostResult ℕ
quoting_result =
    post_result (result "https://b.net/5") no_result
      (boxed_result (post_result (result "https://b.net/4") no_result no_result))

from_post-post_from_result_example :
    Shows plain quoting_result
      (from_post plain {F = ℕ} (post_from_result quoting_result "p.net") (codes "77"))
    × ((fields_of
          (from_post plain {F = ℕ} (post_from_result quoting_result "p.net") (codes "77"))).id
        ≡ codes "77")
    × ((fields_of
          (from_post plain {F = ℕ} (post_from_result quoting_result "p.net") (codes "77"))).uri
        ≡ Option.get_or
            (texts (get {K = String} "activitypub" (result "https://b.net/5").identifiers))
            (codes "https://b.net/5"))
from_post-post_from_result_example =
    from_post-post_from_result ℕ plain quoting_result "p.net" (codes "77")
      ((omega arith, omega arith, tt), tt, ((omega arith, omega arith, tt), tt, tt))

abbrev media : MediaConfig
media = record { host = codes "files.net"; s3_enabled = true }

abbrev emoji_row : EmojiRow
emoji_row = record {
  id = 9;
  shortcode = codes "cat";
  domain = none;
  image_file_name = some (codes "cat.png");
  image_remote_url = none;
  image_storage_schema_version = none;
}

-- Every text names the cat twice.
abbrev cats : Text → List Text
cats s = codes "cat" ∷ codes "dog" ∷ codes "cat" ∷ []

abbrev rows : Map Text EmojiRow
rows = (codes "cat", emoji_row) ∷ []

emojis_run :
    map (λ e. e.shortcode) (build_emojis rows media cats (codes "a" ∷ codes "b" ∷ []))
    ≡ codes "cat" ∷ []
unfolding build_emojis emoji_of get custom_emoji_url
emojis_run = refl

abbrev base_row : ℤ → BaseRow
base_row id = record {
  id = id;
  account_id = 3;
  uri = none;
  url = none;
  text = codes "hello";
  spoiler_text = [];
  sensitive = false;
  language = none;
  in_reply_to_id = none;
  in_reply_to_account_id = none;
  created_at = pos 0;
  edited_at = none;
  username = codes "ann";
  domain = none;
  display_name = codes "Ann";
  note = [];
  account_url = none;
  account_uri = [];
  avatar_file_name = none;
  avatar_remote_url = none;
  header_file_name = none;
  header_remote_url = [];
  account_created_at = pos 0;
  discoverable = none;
  indexable = false;
  locked = false;
  actor_type = none;
  fields = none;
  avatar_storage_schema_version = none;
  header_storage_schema_version = none;
  statuses_count = pos 1;
  following_count = pos 0;
  followers_count = pos 0;
  last_status_at = none;
}

-- Status 1 quotes status 2.
abbrev stored : List BaseRow
stored = base_row (pos 1) ∷ base_row (pos 2) ∷ []

abbrev database : Queries String
database = record {
  base = λ ids. done (filter (λ (r : BaseRow). id_in ids r.id) stored);
  stats = λ ids. done [];
  media = λ ids. done [];
  tags = λ ids. done [];
  cards = λ ids. done [];
  mentions = λ ids. done [];
  favourited = λ viewer ids. done [];
  bookmarked = λ viewer ids. done [];
  reblogged = λ viewer ids. done [];
  emojis = λ codes. done [];
  quote_targets = λ ids. done ((pos 1, pos 2) ∷ []);
}

abbrev library : Library
library = record {
  cleaner = plain;
  is_alphanumeric = λ c. true;
  find_links = λ s. [];
  captures = λ s. [];
  day_text = λ t. [];
  as_u64 = λ v. none;
}

abbrev Quotes : ℤ → ℤ → Type 0
Quotes i j = (i ≡ pos 1) × (j ≡ pos 2)

fetch_by_ids-IsQuoting_example :
    Ensures
      (All (IsQuoting Quotes))
      (fetch_by_ids database {F = ℕ} library (codes "x.y") media none (pos 1 ∷ []))
fetch_by_ids-IsQuoting_example =
    fetch_by_ids-IsQuoting database ℕ library (codes "x.y") media none Quotes (pos 1 ∷ [])
      (λ ids.
        All-map (λ r h. h.0) (filter (λ (r : BaseRow). id_in ids r.id) stored)
          (All-filter (λ (r : BaseRow). IsI64 r.id) (λ r. id_in ids r.id) stored
            (omega arith, (omega arith, tt))))
      (λ ids. ((refl, refl), tt))

-- A database that knows post 5 of the provider as status 2.
abbrev mappings : Mappings String
mappings = record {
  find_mastodon_ids = λ keys. done ((("p.net", pos 5), pos 2) ∷ []);
  map_posts = λ posts. err "down";
}

abbrev page : List FeedItem
page =
    local (pos 1)
    ∷ remote (post_from_result quoting_result "p.net")
    ∷ remote (post_from_result quoting_result "q.net")
    ∷ []

abbrev fetch : List ℤ → Outcome (List (Status ℕ)) String
fetch = fetch_by_ids database library (codes "x.y") media none

to_statuses-shown_example : to_statuses mappings plain (λ p. null) "x.y" fetch page ≡ (
    mappings.find_mastodon_ids (provider_pairs page) >>= λ resolved.
    fetch (wanted_ids resolved page) >>= λ locals. done (
      filter_map
        (shown
          (collect_rows [] (keyed locals))
          resolved
          (entity_in mappings plain (λ p. null) "x.y" (wanted_posts resolved page)))
        page))
to_statuses-shown_example = to_statuses-shown mappings plain (λ p. null) "x.y" fetch page

-- A database that knows every token.
abbrev tokens : Text → Result (Option TokenRow) String
tokens token = ok (
    some (record {
      account_id = pos 3;
      username = codes "ann";
      chosen_languages = some [];
      locale = some (codes "de");
    }))

account_required-account_optional_example :
    (account_required tokens (some (codes "Bearer t1"))
      ≡ demanded (account_optional tokens (some (codes "Bearer t1"))))
    × Owns tokens (some (codes "Bearer t1")) (account_optional tokens (some (codes "Bearer t1")))
account_required-account_optional_example =
    account_required-account_optional tokens (some (codes "Bearer t1"))

token_run : extract_token (some (codes "Bearer  t1 ")) ≡ some (codes "t1")
unfolding extract_token
token_run = refl
