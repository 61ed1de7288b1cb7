-- ===== src/Resolver.antt =====
-- crates/resolver: which process and thread owns a socket.
pub mod Types
pub mod Api
pub mod Netlink
pub mod Wire
pub mod ProcNet
pub mod PidMap
pub mod Cache
pub mod OneShot
pub mod Tests
