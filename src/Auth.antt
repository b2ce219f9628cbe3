-- ===== src/Auth.antt =====
-- src/screener/auth: the sessions of signed-in people.
pub mod Sessions
mod Tests
