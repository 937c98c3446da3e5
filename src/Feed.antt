-- ===== src/Feed.antt =====
-- crates/feed: the pipeline engine.
pub mod Candidate
pub mod Sampler
pub mod Quota
pub mod Filter
pub mod Scorer
pub mod Pipeline
pub mod Cursor
