-- ===== src/Sync.antt =====
-- The server of the synchronisation of the application template: templates/next/src/lib/sync/server.ts
-- and templates/next/src/app/api/sync/route.ts, over the wire format of
-- templates/next/src/lib/sync/protocol.ts. Sync/Server has the push, Sync/Pull the pull and Sync/Route
-- the endpoint; Sync/Answers, Sync/Steps, Sync/Tenancy, Sync/Versions and Sync/Stamps
-- reason about the push, Sync/Paging, Sync/GapFree and Sync/Pages about the pull, and Sync/Delivery
-- about a pull after a push.
pub mod Server
pub mod Pull
pub mod Answers
pub mod Steps
pub mod Tenancy
pub mod Paging
pub mod GapFree
pub mod Route
pub mod Pages
pub mod Versions
pub mod Stamps
pub mod Delivery
pub mod Outcome
