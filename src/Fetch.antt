-- ===== src/Fetch.antt =====
-- src/screener/fetch: requests by one strategy after another, and by one exit after another.
pub mod Chain
pub mod Lanes
mod Tests
