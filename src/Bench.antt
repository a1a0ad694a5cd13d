-- ===== src/Bench.antt =====
-- The programs around the rungs' libraries: their command lines, their measurements and what they
-- make of the samples (the main.rs of each rung).
pub mod Stats
pub mod Args
