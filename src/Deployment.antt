-- ===== src/Deployment.antt =====
-- apps/api/src/deployments/deployment.service.ts: deploying a release to a service, observing that
-- the cluster converges to it, and rolling a failed deployment back.
pub mod Image
pub mod Classify
pub mod Reconciliation
pub mod Persist
pub mod Verify
pub mod Evidence
pub mod Termination
pub mod VerifyRollback
