-- ===== src/Common/Paperclip.antt =====
-- crates/common/src/paperclip.rs: where the files of Mastodon's attachments are. A text is the list of
-- its bytes, and an identifier a number that is not negative.
pub mod Partition
use fediway.Prelude.{
  ℕ, zero, suc, ◌-◌, min, Bool, true, false, Option, none, some, String, List, [], ◌∷◌, ◌++◌,
  length, take, if◌then◌else◌,
}
use mathlib.Core.Option
use fediway.Prelude.Decimal.{Text, to_string}
use fediway.Prelude.Signed.{codes}

pub record MediaConfig : Type 0 where
  pub host : Text
  pub s3_enabled : Bool

abbrev zeros : ℕ → Text
zeros zero = []
zeros (suc n) = b'0' ∷ zeros n

-- `{id:09}`
unfoldable pub padded : ℕ → Text
padded id = let s = to_string id in zeros (9 - length s) ++ s

-- `.chunks(3)` and `.join("/")`
abbrev partitioned : Text → Text
partitioned (a ∷ b ∷ c ∷ d ∷ rest) = a ∷ b ∷ c ∷ b'/' ∷ partitioned (d ∷ rest)
partitioned (a ∷ b ∷ c ∷ []) = a ∷ b ∷ c ∷ []
partitioned (a ∷ b ∷ []) = a ∷ b ∷ []
partitioned (a ∷ []) = a ∷ []
partitioned [] = []

unfoldable pub id_partition : ℕ → Text
unfolding padded
id_partition id = let s = padded id in partitioned (take (min (length s) 18) s)

unfoldable pub build_file_url : MediaConfig → String → String → ℕ → Text → Bool → String → Text
unfolding id_partition
build_file_url config class attachment id file_name cached style =
    let cache_prefix = if cached then codes "cache/" else [] in
    let path =
      codes class
      ++ (codes "/"
          ++ (codes attachment
              ++ (codes "/"
                  ++ (id_partition id
                      ++ (codes "/" ++ (codes style ++ (codes "/" ++ file_name))))))) in
    codes "https://"
    ++ (config.host
        ++ (if config.s3_enabled
            then codes "/" ++ (cache_prefix ++ path)
            else codes "/system/" ++ path))

-- The file, else the remote URL, else the placeholder.
unfoldable pub attachment_url : MediaConfig → String → ℕ → Option Text → Option Text → Bool → Text
unfolding build_file_url
attachment_url config attachment id (some name) remote_url cached =
    build_file_url config "accounts" attachment id name cached "original"
attachment_url config attachment id none (some remote) cached = remote
attachment_url config attachment id none none cached =
    codes "https://"
    ++ (config.host ++ (codes "/" ++ (codes attachment ++ codes "/original/missing.png")))

unfoldable pub avatar_url : MediaConfig → ℕ → Option Text → Option Text → Bool → Text
unfolding attachment_url
avatar_url config account_id file_name remote_url cached =
    attachment_url config "avatars" account_id file_name remote_url cached

unfoldable pub header_url : MediaConfig → ℕ → Option Text → Option Text → Bool → Text
unfolding attachment_url
header_url config account_id file_name remote_url cached =
    attachment_url config "headers" account_id file_name remote_url cached

-- A file of the class, else the remote URL.
abbrev file_or_remote : Option Text → Option Text → (Text → Text) → Option Text
file_or_remote (some name) remote_url file = some (file name)
file_or_remote none remote_url file = remote_url

unfoldable pub media_attachment_url :
    MediaConfig → ℕ → Option Text → Option Text → Bool → Option Text
unfolding build_file_url
media_attachment_url config media_id file_name remote_url cached =
    file_or_remote file_name remote_url
      (λ name. build_file_url config "media_attachments" "files" media_id name cached "original")

unfoldable pub media_thumbnail_url : MediaConfig → ℕ → Option Text → Bool → Option Text
unfolding build_file_url
media_thumbnail_url config media_id thumbnail_file_name cached =
    Option.map
      (λ name. build_file_url config "media_attachments" "files" media_id name cached "small")
      thumbnail_file_name

unfoldable pub preview_card_image_url : MediaConfig → ℕ → Option Text → Bool → Option Text
unfolding build_file_url
preview_card_image_url config card_id file_name cached =
    Option.map
      (λ name. build_file_url config "preview_cards" "images" card_id name cached "original")
      file_name

unfoldable pub custom_emoji_url : MediaConfig → ℕ → Option Text → Option Text → Bool → Option Text
unfolding build_file_url
custom_emoji_url config emoji_id file_name remote_url cached =
    file_or_remote file_name remote_url
      (λ name. build_file_url config "custom_emojis" "images" emoji_id name cached "original")
