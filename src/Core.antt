-- ===== src/Core.antt =====
-- crates/core: the types and the pure logic that the service and its clients share.
pub mod Rc
pub mod Message
pub mod Models
pub mod Capabilities
pub mod Discovery
pub mod Scan
pub mod Units
pub mod Config
pub mod Transfer
pub mod Supervisor
pub mod Ipc
pub mod Mountinfo
