-- ===== src/Examples.antt =====
-- Runs of the model on concrete inputs: a sample environment, and what the theorems say of it.
pub mod Sample
pub mod Mutations
pub mod Nodes
pub mod Runs
pub mod Maintenance
pub mod Locks
pub mod Classifiers
pub mod Deployments
pub mod Rollbacks
