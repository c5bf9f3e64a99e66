-- ===== src/Auth.antt =====
-- Sessions, and the ways to an account. Of platform/src/auth/auth.service.ts, Auth/Gate has the checks
-- that login and refresh share and Auth/Sessions the methods; Auth/Admission and Auth/Rotation reason
-- about them. Of platform/src/auth/account-flows.service.ts, Auth/Limiter has the budget of messages
-- and Auth/Flows the methods; Auth/Budget, Auth/Recovery and Auth/Mailed reason about them. Auth/Signup
-- is platform/src/auth/signup.service.ts.
pub mod Gate
pub mod Sessions
pub mod Admission
pub mod Rotation
pub mod Limiter
pub mod Budget
pub mod Flows
pub mod Recovery
pub mod Mailed
pub mod Signup
