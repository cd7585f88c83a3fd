-- ===== src/Mutation.antt =====
-- apps/api/src/operations/mutation.service.ts and mutation-verification.ts: scaling and restarting
-- a service under an operation that is persisted before the agent is asked.
pub mod Classify
pub mod Persist
pub mod Verify
pub mod Service
pub mod Keeps
pub mod Safety
pub mod Termination
pub mod Verdicts
pub mod Atomicity
pub mod Repeats
pub mod Recorded
