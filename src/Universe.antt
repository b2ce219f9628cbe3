-- ===== src/Universe.antt =====
-- src/screener/universe: the securities that are followed.
pub mod Reconcile
