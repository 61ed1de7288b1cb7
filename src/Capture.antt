-- ===== src/Capture.antt =====
-- crates/capture/src/lib.rs: from raw frames to flow records.
pub mod Types
pub mod Packet
pub mod Direction
pub mod Loop
pub mod Control
mod Tests
