-- ===== src/Format.antt =====
-- crates/mastodon/src/formatter.rs: statuses written here, from plain text to HTML. A text is the
-- list of its characters, and its positions count the bytes of its UTF-8 encoding.
pub mod Characters
pub mod Escape
pub mod Matches
pub mod Spans
pub mod Links
pub mod Local
pub mod Remote
