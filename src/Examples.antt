-- ===== src/Examples.antt =====
-- A workspace of the platform on concrete rows, for the examples of the components.
mod Tenancy
mod Accounts
mod Payments
mod Replica
mod Client
mod Recovery
mod Registry
mod Ledger
