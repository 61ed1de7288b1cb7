-- ===== src/Controller.antt =====
-- crates/controller: blocking and rate limits of processes with nft.
pub mod Ports
pub mod Handles
pub mod Nft
pub mod Listing
pub mod Chain
pub mod Action
pub mod Process
pub mod Tests
