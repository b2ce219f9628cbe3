-- ===== src/Nightly.antt =====
-- src/screener/nightly: when a night is due.
pub mod Schedule
mod Tests
