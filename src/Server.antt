-- ===== src/Server.antt =====
-- apps/server: the feeds that the HTTP server serves, and its Mastodon API.
pub mod Engine
pub mod Seen
pub mod Home
pub mod Resolver
pub mod Api
pub mod Keyset
pub mod Statuses
pub mod Auth
pub mod Language
pub mod Timelines
pub mod Trends
