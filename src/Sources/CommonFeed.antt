-- ===== src/Sources/CommonFeed.antt =====
-- crates/sources/src/commonfeed: the posts, links and tags that a provider's CommonFeed server answers.
pub mod Types
pub mod Posts
pub mod Fetch
pub mod Collect
