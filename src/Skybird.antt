-- ===== src/Skybird.antt =====
-- The live-stream capture of src/screener/skybird: its tables and its supervisor.
pub mod Session
pub mod Store
pub mod Capture
pub mod Supervisor
mod Tests
