-- ===== src/Orbit.antt =====
-- The worker workers/orbit, which learns a vector for each user from what the user engages with.
pub mod Vector
