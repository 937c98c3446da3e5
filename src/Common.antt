-- ===== src/Common.antt =====
-- The crate crates/common.
pub mod Types
pub mod Paperclip
