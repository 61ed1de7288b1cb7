-- ===== src/Gui.antt =====
-- crates/gui/src/main.rs: what the user interface keeps and does, behind its drawing.
pub mod Types
pub mod Sort
pub mod Session
pub mod Control
pub mod View
pub mod Export
pub mod Host
pub mod Steps
mod Tests
