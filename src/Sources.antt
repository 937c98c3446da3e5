-- ===== src/Sources.antt =====
-- The crate crates/sources.
pub mod PolicyFilter
pub mod FeedItem
pub mod CommonFeed
