-- ===== src/Billing.antt =====
-- Stripe subscription billing, per app: platform/src/billing/billing.service.ts.
-- Billing/Stripe has the objects of Stripe's interface that the service reads, Billing/Rows the
-- writes of the `app_tenants` table, Billing/Access the standing of a tenant on an app,
-- Billing/Checkout the calls of an app, Billing/Webhook the events; the other modules reason about
-- them.
pub mod Stripe
pub mod Rows
pub mod Access
pub mod Checkout
pub mod Webhook
pub mod Door
pub mod Isolation
pub mod Selling
pub mod Lifecycle
pub mod Redelivery
