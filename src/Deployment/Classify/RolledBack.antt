-- ===== src/Deployment/Classify/RolledBack.antt =====
-- apps/api/src/deployments/deployment.service.ts: an independent description of the snapshots that
-- classifyRollbackSnapshot calls a success.
use docklane.Prelude.{
  ◌≡◌, ◌≢◌, ◌↔◌, String, Text, Option, some, ℕ-eq, String-eq, Option-eq, arith, nat_eq_iff,
  option_eq_iff, eq_iff,
}
use docklane.Agent.{ServiceDetailResponse, ServiceMutationPlan}
use docklane.Exec.{success}
use docklane.Deployment.Classify.{classify_rollback_snapshot}
use docklane.Deployment.Classify.Converged.{
  Observed, tasks_match_iff, image_contains_digest_iff, is_missing_iff,
}

-- The states that hold a rollback back, or make it a failure.
abbrev pub HasRolledBack : Option String → Type 0
HasRolledBack state =
    (state ≢ some "paused") × (state ≢ some "rollback_paused") × (state ≢ some "rollback_started")

module _ (current : ServiceDetailResponse) (plan : ServiceMutationPlan) (digest : Text) where
  classify_rollback-Observed :
      classify_rollback_snapshot current plan digest ≡ success → Observed current plan digest
  unfolding classify_rollback_snapshot
  classify_rollback-Observed h = record {
    spec = ground (arith, eq_iff current.service.spec_hash plan.target_spec_hash);
    image = (image_contains_digest_iff current.service.image digest).0 (ground arith);
    replicas =
        ground
          (arith, nat_eq_iff current.service.desired_replicas current.service.running_replicas);
    fingerprinted = (is_missing_iff plan.target_runtime_spec_hash).0 (ground arith);
    tasks = (tasks_match_iff current plan digest).0 (ground arith);
  }

  classify_rollback-HasRolledBack :
      classify_rollback_snapshot current plan digest ≡ success
      → HasRolledBack current.service.update_state
  unfolding classify_rollback_snapshot
  classify_rollback-HasRolledBack h = (
    ground (arith, option_eq_iff current.service.update_state (some "paused")),
    ground (arith, option_eq_iff current.service.update_state (some "rollback_paused")),
    ground (arith, option_eq_iff current.service.update_state (some "rollback_started")),
  )

  classify_rollback_complete :
      Observed current plan digest
      → HasRolledBack current.service.update_state
      → classify_rollback_snapshot current plan digest ≡ success
  unfolding classify_rollback_snapshot
  classify_rollback_complete o (not_paused, not_rollback_paused, not_started) = ground (
    arith,
    eq_iff current.service.spec_hash plan.target_spec_hash,
    nat_eq_iff current.service.desired_replicas current.service.running_replicas,
    (tasks_match_iff current plan digest).1 o.tasks,
    (image_contains_digest_iff current.service.image digest).1 o.image,
    (is_missing_iff plan.target_runtime_spec_hash).1 o.fingerprinted,
    option_eq_iff current.service.update_state (some "paused"),
    option_eq_iff current.service.update_state (some "rollback_paused"),
    option_eq_iff current.service.update_state (some "rollback_started"),
  )

  -- A rollback's snapshot is classified a success exactly if the service is observed as for a
  -- deployment, with the fingerprints of the rollback's plan, and its update is neither paused nor
  -- rolling back; the update need not be completed.
  pub classify_rollback-success_iff :
      (classify_rollback_snapshot current plan digest ≡ success)
      ↔ (Observed current plan digest × HasRolledBack current.service.update_state)
  classify_rollback-success_iff = (
    λ h. (classify_rollback-Observed h, classify_rollback-HasRolledBack h),
    λ h. classify_rollback_complete h.0 h.1,
  )
