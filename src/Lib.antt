-- ===== src/Lib.antt =====
-- Evo.platform: a platform of accounts, tenants, apps and subscriptions (platform/, a NestJS
-- service over PostgreSQL), and the application template that synchronises offline data with its
-- own server (templates/next/). This library models the services that decide who may do what, and
-- the synchronisation, from their TypeScript.
--
-- A service method is an `Action`: a function from the database to a result and the database after
-- it (Platform/Method). The database is the list of rows of each table (Platform/Schema, after
-- platform/prisma/schema.prisma); a call of the database client is the documented effect of that
-- call on the rows, with the constraints of the schema where a write can break them. What was
-- written before a throw stays, unless the code opened a transaction. The clock, the random values,
-- the configuration and the functions of libraries (hashing, signing, folding of text, the parsing of
-- addresses) are the fields of `Env` (Platform/Environment), and the client of Stripe is a record of
-- functions (Billing/Stripe): what holds, holds for all of them.
--
-- The parts, and the code that each is about:
--   Base, Base/Equality, Base/Tests, Base/Rows, Base/Keyed, Base/Integers: shared names, comparisons,
--     queries of a table, tables with a key, and integers over the native numbers.
--   Billing (platform/src/billing/billing.service.ts): Access has requireRelationship,
--     assertRedirectAllowed, entitlement, ensureCustomer; Checkout has resolvePrice, checkout and
--     portal; Webhook has handleEvent with every handler. Door, Isolation, Selling, Lifecycle and
--     Redelivery reason about them.
--   Auth (platform/src/auth/auth.service.ts): Gate has assertTenantUsable, assertAppEnabled and
--     rolesForApp; Sessions has login, completeLogin, refresh, onRefreshReuse, logout and issueTokens.
--     Admission and Rotation reason about them. Limiter and Flows have the verification of addresses
--     and the reset of passwords (platform/src/auth/account-flows.service.ts), over a `Post`: the
--     database, the limiter's buckets and what was mailed; Budget, Recovery and Mailed reason about
--     them. Signup is platform/src/auth/signup.service.ts.
--   Passkeys (platform/src/passkeys/passkeys.service.ts): Tickets has the challenge tokens, Service the
--     methods, over the database with the table of the credentials; Ceremony reasons about them.
--   People: Users (platform/src/users/users.service.ts), Members
--     (platform/src/tenant/tenant.service.ts), Invites (platform/src/tenant/invites.service.ts), Roles
--     and Names (what the three share). Admins, Administration, Operations and Administered reason
--     about sequences of their operations, Joining about the acceptance of an invitation.
--   Tenants (platform/src/tenants/tenants.service.ts): Service has its methods, Purge the erasure;
--     Suspension follows a suspension to the login.
--   Apps (platform/src/apps/apps.service.ts): Registry has the apps, Roles their roles, Prices what
--     they sell, with describePrice and listPrices of platform/src/billing/billing.service.ts;
--     Catalogue reasons about the prices.
--   Revenue (platform/src/revenue/revenue.service.ts): Amounts has sums by currency and the net of
--     refunds, Health the state of Stripe (platform/src/revenue/stripe-health.service.ts), Report has
--     pull and report, ByTenant has byTenant, and Table the lines of toCsv. Reconciled reasons about the sums.
--   Sync (templates/next/src/lib/sync/server.ts): Server has applyMutations, Pull has pullChanges, and
--     Route the endpoint (templates/next/src/app/api/sync/route.ts); Answers, Steps, Tenancy, Versions,
--     Stamps, Outcome, Paging, GapFree, Pages and Delivery reason about them.
--   Offline: Outbox (templates/next/src/lib/offline/outbox.ts), Local
--     (templates/next/src/lib/offline/tenantDb.ts and templates/next/src/lib/data/projects.ts) and Client
--     (templates/next/src/lib/sync/client.ts) are the client; Coalescing, Drain, Queue, Mirror, Shadow
--     and Convergence reason about it.
--   Examples: concrete requests to which the theorems are applied.
-- Billing and Auth meet in the rows of `app_tenants`: the webhook writes the status that the gate of
-- a login reads. People and Tenants write the accounts and the tenants that Auth reads. The client's
-- loop in Offline takes the exchange with the server as a parameter, for which Offline/Convergence
-- takes the endpoint of Sync.
--
-- The loops of the modelled code run over lists, and the functions are structural recursions, but for
-- one: the loop of the client's synchronisation runs at most 50 times in the code, and these
-- iterations are the fuel of `sync_loop`. They are enough where the result in Offline/Convergence says
-- so, since a cut page moves the cursor on by its 1000 rows at least. Instants are milliseconds as
-- natural numbers; row versions are unbounded, as a BigInt is.
--
-- Not modelled: the delivery and the texts of messages, and the product that they name
-- (platform/src/auth/product.ts); the collision of random tokens and of new ids with deleted ones;
-- errors of the network, of Stripe and of the database other than its constraints; the foreign key
-- of a new account's tenant and the key of a tenant's customer id; requests
-- that interleave within one method, and writes of the user between a request of the synchronisation
-- and its answer (Offline/Drain has them for the queue); the second reading of the clock within one request; the
-- columns of a company's profile and of an app's brand, the mail configuration, and the messages' exact
-- text where it holds a number. The passkeys are not rows of `Db`, so the erasure of an account leaves
-- them out. The ceremony of a passkey is a library's, and a parameter. The services of brands and
-- email, the readiness of billing, the command line, the SDKs and the pages have no module.
pub mod Base
pub mod Platform
pub mod Billing
pub mod Auth
pub mod Passkeys
pub mod Revenue
pub mod People
pub mod Apps
pub mod Tenants
pub mod Sync
pub mod Offline
pub mod Examples
