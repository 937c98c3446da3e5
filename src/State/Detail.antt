-- ===== src/State/Detail.antt =====
-- crates/state/src/statuses/detail: statuses of Mastodon's database. The rows of the queries and the
-- date format are parameters.
pub mod Row
pub mod Emojis
pub mod Build
pub mod Fetch
