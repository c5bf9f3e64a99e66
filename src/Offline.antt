-- ===== src/Offline.antt =====
-- The client of the synchronisation, in the browser: templates/next/src/lib/offline,
-- templates/next/src/lib/data and templates/next/src/lib/sync/client.ts. Offline/Outbox has the queue,
-- Offline/Local the database and the writes of the user, and Offline/Client the synchronisation;
-- Offline/Coalescing, Offline/Drain and Offline/Queue reason about the queue, Offline/Mirror and
-- Offline/Shadow about the replica, and Offline/Convergence about client and server together.
pub mod Outbox
pub mod Local
pub mod Client
pub mod Coalescing
pub mod Drain
pub mod Queue
pub mod Mirror
pub mod Shadow
pub mod Convergence
