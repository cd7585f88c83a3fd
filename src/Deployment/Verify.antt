-- ===== src/Deployment/Verify.antt =====
-- apps/api/src/deployments/deployment.service.ts: classifyDeploymentConvergence and
-- verifyAndComplete, the observation of a deployment up to its verdict. The loop runs on fuel; a
-- round that goes on waits `verify_interval_ms` first, so that `rounds` rounds are enough.
use Prim.Native.String.{◌++◌ as concat}
use mathlib.Core.Option
use docklane.Prelude.{
  ℕ, zero, suc, ◌+◌, String, Text, Bool, Option, none, some, ltb, ◌==◌, String-eq, if◌then◌else◌,
}
use docklane.Agent.{ServiceDetailResponse, ServiceMutationPlan, PlacementStatus}
use docklane.Store.{DeploymentRecord, HealthCheckConfig}
use docklane.Exec.{
  on_result, Decision, pending, success, rollback_paused, failed, external_conflict, decided,
  unavailable, Failure, guarded, stuck, error_message, M, Env, pure, raise, ◌>>=◌, ◌>>◌, date_now,
  sleep, ask,
}
use docklane.Health.Verifier
use docklane.Mutation.Verify.{verify_timeout_ms, verify_interval_ms, rounds}
use docklane.Deployment.Classify.{classify_deployment_snapshot}
use docklane.Deployment.Persist.{
  attention, fail, mark_verification_pending, persist_success, require_deployment,
}

-- What is verified: the deployment, its operation, and the target.
pub record Verification : Type 0 where
  pub deployment_id : String
  pub operation_id : String
  pub plan : ServiceMutationPlan
  pub digest : Text
  pub no_op : Bool
  pub health : HealthCheckConfig

unfoldable pub placement_decision : PlacementStatus → Decision
placement_decision PlacementStatus.converged = success
placement_decision PlacementStatus.pending = pending
placement_decision PlacementStatus.unknown = pending

module _ (env : Env) where
  -- The placement is asked for only behind a snapshot that is a success.
  unfoldable pub with_placement : String → Decision → M Decision
  with_placement service_id success =
      on_result (ask env (λ n. env.check_service_placement n service_id))
        (λ placement. pure (placement_decision placement.status)) (λ e. pure pending)
  with_placement service_id decision = pure decision

  unfoldable pub classify_deployment_convergence : Verification → ServiceDetailResponse → M Decision
  classify_deployment_convergence v current =
      with_placement v.plan.service_id
        (classify_deployment_snapshot current v.plan v.digest v.no_op)

  unfoldable pub inspect : Verification → M ServiceDetailResponse
  inspect v = (ask env (λ n. env.inspect_service n v.plan.service_id))

  unfoldable pub pass_success : Decision → M (Unit {0})
  pass_success success = pure tt
  pass_success decision =
      raise (guarded (decided decision) "Deployment convergence changed during health verification")

  -- The guard that the health check calls: an inspection and its decision.
  unfoldable pub convergence_guard : Verification → M (Unit {0})
  convergence_guard v = do
    on_result (inspect v)
        (λ current. (do
          decision ← classify_deployment_convergence v current
          pass_success decision))
        (λ e. raise (guarded unavailable (error_message e)))

  -- A verdict is written, and the deployment is read again.
  unfoldable pub needs_attention : Verification → String → String → M DeploymentRecord
  needs_attention v code message = do
    attention env v.deployment_id v.operation_id code message
    require_deployment env v.deployment_id

  unfoldable pub failed_with : Verification → String → String → M DeploymentRecord
  failed_with v code message = do
    fail env v.deployment_id v.operation_id code message
    require_deployment env v.deployment_id

  unfoldable pub settle_final :
      Verification
      → ServiceDetailResponse
      → (Option String → M DeploymentRecord)
      → Decision
      → M DeploymentRecord
  settle_final v final_current again pending = again none
  settle_final v final_current again rollback_paused =
      needs_attention v "SWARM_ROLLBACK_PAUSED"
        "Swarm automatic rollback paused before deployment success persistence"
  settle_final v final_current again failed =
      failed_with v "CONVERGENCE_FAILED"
        "Swarm update changed to a terminal failed state before success persistence"
  settle_final v final_current again external_conflict =
      needs_attention v "EXTERNAL_SERVICE_CONFLICT"
        "Service changed before deployment success could be persisted"
  settle_final v final_current again success = do
    persist_success env v.deployment_id v.operation_id v.no_op final_current
    require_deployment env v.deployment_id

  unfoldable pub final_step :
      Verification → (Option String → M DeploymentRecord) → M DeploymentRecord
  final_step v again = do
    on_result (inspect v)
        (λ final_current. (do
          decision ← classify_deployment_convergence v final_current
          settle_final v final_current again decision))
        (λ e. again (some (error_message e)))

  -- The `catch` of the health check.
  unfoldable pub settle_health_error :
      Verification → (Option String → M DeploymentRecord) → Failure → M DeploymentRecord
  settle_health_error v again (guarded (decided external_conflict) m) =
      needs_attention v "EXTERNAL_SERVICE_CONFLICT"
        "Service changed during the health stability window"
  settle_health_error v again (guarded (decided rollback_paused) m) =
      needs_attention v "SWARM_ROLLBACK_PAUSED"
        "Swarm automatic rollback paused during health verification"
  settle_health_error v again (guarded (decided failed) m) =
      failed_with v "CONVERGENCE_FAILED"
        "Swarm update entered a terminal failed state during health verification"
  settle_health_error v again (guarded unavailable m) = again (some m)
  settle_health_error v again (guarded (decided d) m) = again none
  settle_health_error v again e = failed_with v "HEALTH_VERIFICATION_FAILED" (error_message e)

  unfoldable pub health_step :
      Verification → (Option String → M DeploymentRecord) → M DeploymentRecord
  health_step v again = do
    on_result (Verifier.verify env v.health (convergence_guard v)) (λ _. final_step v again)
        (λ e. settle_health_error v again e)

  unfoldable pub settle_first :
      Verification → (Option String → M DeploymentRecord) → Decision → M DeploymentRecord
  settle_first v again rollback_paused =
      needs_attention v "SWARM_ROLLBACK_PAUSED"
        "Swarm automatic rollback is paused and requires operator attention"
  settle_first v again failed =
      failed_with v "CONVERGENCE_FAILED" "Swarm update entered a terminal failed or rollback state"
  settle_first v again external_conflict =
      needs_attention v "EXTERNAL_SERVICE_CONFLICT"
        "Current service spec diverged from the deployment target"
  settle_first v again pending = again none
  settle_first v again success = health_step v again

  unfoldable pub verify_round :
      Verification → (Option String → M DeploymentRecord) → M DeploymentRecord
  verify_round v again = do
    on_result (inspect v)
        (λ current. (do
          decision ← classify_deployment_convergence v current
          settle_first v again decision))
        (λ e. again (some (error_message e)))

  unfoldable pub verification_timed_out : Verification → Option String → M DeploymentRecord
  verification_timed_out v last_error =
      if Option.get_or last_error "" == ""
      then (do
        mark_verification_pending env v.deployment_id v.operation_id
            "DEPLOYMENT_OBSERVATION_TIMEOUT"
            "Deployment is still converging after the synchronous observation window; mutation protection remains active"
        require_deployment env v.deployment_id)
      else needs_attention v "DEPLOYMENT_VERIFICATION_UNAVAILABLE" (
          concat "Deployment verification timed out after Agent errors: "
            (Option.get_or last_error ""))

  unfoldable pub verify_loop :
      ℕ → Verification → (deadline : ℕ) → (last_error : Option String) → M DeploymentRecord
  verify_loop zero v deadline last_error = do
    now ← date_now
    if ltb now deadline then raise stuck else verification_timed_out v last_error
  verify_loop (suc fuel) v deadline last_error = do
    now ← date_now
    if ltb now deadline
        then verify_round v (λ e. do sleep verify_interval_ms; verify_loop fuel v deadline e)
        else verification_timed_out v last_error

  unfoldable pub verify_and_complete : Verification → M DeploymentRecord
  verify_and_complete v = do now ← date_now; verify_loop rounds v (now + verify_timeout_ms) none
