-- ===== src/Tests.antt =====
-- Runs of the model on concrete data, and the theorems at concrete inputs.
mod Scores
mod Texts
mod Sampling
mod Filtering
mod Paging
mod Caching
mod Home
mod Resolving
mod Api
mod Keyset
mod Learning
mod Media
mod Formatting
mod Statuses
mod Timelines
mod Languages
