-- ===== src/People.antt =====
-- The accounts: People/Names and People/Roles have what the services share, People/Users is the
-- platform administrator's service (platform/src/users/users.service.ts), People/Members the tenant
-- administrator's (platform/src/tenant/tenant.service.ts), People/Invites the invitations
-- (platform/src/tenant/invites.service.ts). Joining reasons about an acceptance, the other modules about
-- sequences of operations.
pub mod Names
pub mod Roles
pub mod Users
pub mod Members
pub mod Invites
pub mod Joining
pub mod Admins
pub mod Administration
pub mod Operations
pub mod Administered
