-- ===== src/Entities.antt =====
-- crates/mastodon: the entities of Mastodon's API, and how they are made of posts and links.
pub mod Types
pub mod Cards
pub mod FromPost
