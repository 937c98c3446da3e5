-- ===== src/Sources/FeedItem.antt =====
-- crates/sources/src/mastodon/feed_item.rs
use fediway.Prelude.{Option, none, some, String, str_eq, if◌then◌else◌}
use fediway.Prelude.Int.{ℤ}
use fediway.Common.Types.{Post, body}

pub data FeedItem : Type 0 where
  local : ℤ → FeedItem
  remote : Post → FeedItem

local_or_remote : Option String → Option ℤ → Post → String → FeedItem
local_or_remote (some domain) (some id) p instance_domain =
    if str_eq domain instance_domain then local id else remote p
local_or_remote (some domain) none p instance_domain = remote p
local_or_remote none id p instance_domain = remote p

unfoldable pub from_post : Post → String → FeedItem
unfolding local_or_remote
from_post p instance_domain =
    local_or_remote (body p).provider_domain (body p).provider_id p instance_domain
