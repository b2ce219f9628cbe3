-- ===== src/Scoring/Basis.antt =====
-- src/screener/scoring/basis.py: line items onto one period. A date is its day number
-- (`date.toordinal()`), so a difference of dates is a difference of numbers.
pub mod Facts
pub mod Flow
pub mod Balance
pub mod Cap
