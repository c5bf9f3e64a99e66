-- ===== src/Revenue.antt =====
-- The figures of platform/src/revenue/revenue.service.ts, and the state of Stripe
-- (platform/src/revenue/stripe-health.service.ts), which Revenue/Health has. Revenue/Amounts has
-- amounts by currency, Revenue/Report the pull from Stripe and the report, Revenue/ByTenant the
-- view by tenant, Revenue/Table the lines of the spreadsheet; Revenue/Reconciled reasons about the sums.
pub mod Amounts
pub mod Health
pub mod Report
pub mod ByTenant
pub mod Table
pub mod Reconciled
