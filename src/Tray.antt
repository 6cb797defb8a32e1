-- ===== src/Tray.antt =====
-- crates/tray: the client in the panel, which shows what the service publishes.
pub mod Link
pub mod Model
pub mod Wrap
pub mod Act
pub mod Watch
