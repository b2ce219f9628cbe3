-- ===== src/Scoring/Ratios.antt =====
-- src/screener/scoring/ratios.py: ten ratios, the rules that make one absent, and which apply to whom.
pub mod Inputs
pub mod Classes
pub mod Formulas
pub mod Explain
pub mod Steps
pub mod Returning
pub mod Reasons
