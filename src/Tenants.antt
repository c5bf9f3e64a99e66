-- ===== src/Tenants.antt =====
-- The tenants as the platform's administrator manages them: platform/src/tenants/tenants.service.ts.
-- Tenants/Service has the methods, Tenants/Purge the erasure, Tenants/Suspension a login afterwards.
pub mod Service
pub mod Purge
pub mod Suspension
