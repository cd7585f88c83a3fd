-- ===== src/Node.antt =====
-- apps/api/src/operations/node-mutation.service.ts and node-mutation-verification.ts: draining,
-- activating and labelling a node under the locks of the node and of the services that it affects.
pub mod Labels
pub mod Classify
pub mod Persist
pub mod Verify
pub mod Service
pub mod Keeps
pub mod Safety
pub mod Evidence
pub mod Termination
pub mod Atomicity
