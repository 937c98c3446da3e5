-- ===== src/State.antt =====
-- The crate crates/state.
pub mod Cache
pub mod Policy
pub mod Detail
