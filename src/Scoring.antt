-- ===== src/Scoring.antt =====
-- src/screener/scoring: from stored facts to one snapshot for each security.
pub mod Basis
pub mod Ratios
pub mod Percentile
pub mod Ranking
pub mod Adjust
pub mod Blend
pub mod Momentum
mod Tests
