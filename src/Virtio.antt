-- ===== src/Virtio.antt =====
-- The hand-written split virtqueue of rung-02-virtio/toy-virtq-raw.
pub mod Mem
pub mod Layout
pub mod Chain
pub mod Device
pub mod Driver
pub mod Hostile
pub mod Sample
mod Tests
