-- ===== src/Examples.antt =====
-- The theorems at concrete inputs.
pub mod Readings
pub mod Bus
pub mod Files
pub mod Supervision
pub mod Panel
pub mod Polling
