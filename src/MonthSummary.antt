-- ===== src/MonthSummary.antt =====
-- The pure part of the month's summary (apps/api/src/reports/month-summary.calc.ts).
pub mod Months
pub mod MonthTexts
pub mod ShiftedBack
pub mod Remainders
pub mod Floors
pub mod Spread
pub mod Roots
pub mod Climbing
pub mod Groups
pub mod Totals
pub mod Compared
mod Tests
