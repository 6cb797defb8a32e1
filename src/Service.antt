-- ===== src/Service.antt =====
-- crates/service: the background service that owns the mounts.
pub mod Registry
pub mod Units
pub mod Host
pub mod Redact
pub mod Poller
pub mod Watch
pub mod Supervisor
