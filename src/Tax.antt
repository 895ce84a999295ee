-- ===== src/Tax.antt =====
-- The tax on "income less expenses", month by month (apps/api/src/reports/ausn-classify.ts and
-- apps/api/src/reports/ausn-tax.ts). Amounts are in kopecks; months are numbered, where the code
-- writes a label "YYYY-MM".
pub mod Classify
pub mod Sums
pub mod Bounds
pub mod Months
mod Tests
