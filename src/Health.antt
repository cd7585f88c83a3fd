-- ===== src/Health.antt =====
-- apps/api/src/deployments/health-endpoint.policy.ts and health-verifier.ts: the health check that
-- has to stay good for a time before a deployment counts as a success.
pub mod Policy
pub mod Verifier
pub mod Keeps
pub mod Termination
