-- ===== src/Server/Api.antt =====
-- The Mastodon API of apps/server: the actions on a status, their errors, the translation of
-- identifiers, and the fallback to the Mastodon instance.
pub mod Json
pub mod Errors
pub mod Translate
pub mod Engage
pub mod Final
