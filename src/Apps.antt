-- ===== src/Apps.antt =====
-- The registry of the apps: platform/src/apps/apps.service.ts. Apps/Registry has the apps, Apps/Roles
-- their roles and Apps/Prices what they sell, with `describePrice` and `listPrices` of
-- platform/src/billing/billing.service.ts; Apps/Catalogue reasons about the prices.
pub mod Registry
pub mod Roles
pub mod Prices
pub mod Catalogue
