-- ===== src/Deployment/VerifyRollback.antt =====
-- apps/api/src/deployments/deployment.service.ts: classifyRollbackConvergence and
-- verifyRollbackAndComplete, the observation of a rollback up to its verdict.
use Prim.Native.String.{◌++◌ as concat}
use mathlib.Core.Option
use docklane.Prelude.{
  ℕ, zero, suc, ◌+◌, String, Option, none, some, ltb, ◌==◌, String-eq, if◌then◌else◌,
}
use docklane.Agent.{ServiceDetailResponse}
use docklane.Store.{DeploymentRecord}
use docklane.Exec.{
  on_result, Decision, pending, success, failed, external_conflict, decided, unavailable, Failure,
  guarded, stuck, error_message, M, Env, pure, raise, ◌>>=◌, ◌>>◌, date_now, sleep,
}
use docklane.Health.Verifier
use docklane.Mutation.Verify.{verify_timeout_ms, verify_interval_ms, rounds}
use docklane.Deployment.Classify.{classify_rollback_snapshot}
use docklane.Deployment.Persist.{
  rollback_attention, rollback_failed, mark_rollback_verification_pending, persist_rolled_back,
  require_deployment,
}
use docklane.Deployment.Verify.{Verification, with_placement, inspect}

-- A `Verification` names what is verified; its `no_op` is not read here.
module _ (env : Env) where
  unfoldable pub classify_rollback_convergence : Verification → ServiceDetailResponse → M Decision
  classify_rollback_convergence v current =
      with_placement env v.plan.service_id (classify_rollback_snapshot current v.plan v.digest)

  unfoldable pub pass_rollback : Decision → M (Unit {0})
  pass_rollback success = pure tt
  pass_rollback decision = raise (
      guarded (decided decision) "Rollback convergence changed during recovery health verification")

  unfoldable pub rollback_guard : Verification → M (Unit {0})
  rollback_guard v = do
    on_result (inspect env v)
        (λ current. (do decision ← classify_rollback_convergence v current; pass_rollback decision))
        (λ e. raise (guarded unavailable (error_message e)))

  unfoldable pub needs_attention : Verification → String → String → M DeploymentRecord
  needs_attention v code message = do
    rollback_attention env v.deployment_id v.operation_id code message
    require_deployment env v.deployment_id

  unfoldable pub failed_with : Verification → String → String → M DeploymentRecord
  failed_with v code message = do
    rollback_failed env v.deployment_id v.operation_id code message
    require_deployment env v.deployment_id

  -- Whatever is left at the end counts as a success, as in the source.
  unfoldable pub settle_final :
      Verification
      → ServiceDetailResponse
      → (Option String → M DeploymentRecord)
      → Decision
      → M DeploymentRecord
  settle_final v final_current again pending = again none
  settle_final v final_current again failed =
      failed_with v "ROLLBACK_FAILED"
        "Rollback changed to a terminal failed state before persistence"
  settle_final v final_current again external_conflict =
      needs_attention v "ROLLBACK_EXTERNAL_CONFLICT"
        "Service changed before rollback success could be persisted"
  settle_final v final_current again _ = do
    persist_rolled_back env v.deployment_id v.operation_id final_current
    require_deployment env v.deployment_id

  unfoldable pub final_step :
      Verification → (Option String → M DeploymentRecord) → M DeploymentRecord
  final_step v again = do
    on_result (inspect env v)
        (λ final_current. (do
          decision ← classify_rollback_convergence v final_current
          settle_final v final_current again decision))
        (λ e. again (some (error_message e)))

  unfoldable pub settle_health_error :
      Verification → (Option String → M DeploymentRecord) → Failure → M DeploymentRecord
  settle_health_error v again (guarded (decided failed) m) =
      failed_with v "ROLLBACK_FAILED" "Rollback became unhealthy during recovery verification"
  settle_health_error v again (guarded (decided external_conflict) m) =
      needs_attention v "ROLLBACK_EXTERNAL_CONFLICT"
        "Service changed during rollback recovery health verification"
  settle_health_error v again (guarded unavailable m) = again (some m)
  settle_health_error v again (guarded (decided d) m) = again none
  settle_health_error v again e = failed_with v "ROLLBACK_HEALTH_FAILED" (error_message e)

  unfoldable pub health_step :
      Verification → (Option String → M DeploymentRecord) → M DeploymentRecord
  health_step v again = do
    on_result (Verifier.verify env v.health (rollback_guard v)) (λ _. final_step v again)
        (λ e. settle_health_error v again e)

  unfoldable pub settle_first :
      Verification → (Option String → M DeploymentRecord) → Decision → M DeploymentRecord
  settle_first v again failed =
      failed_with v "ROLLBACK_FAILED" "Swarm rollback entered a terminal failed state"
  settle_first v again external_conflict =
      needs_attention v "ROLLBACK_EXTERNAL_CONFLICT"
        "Service changed outside the recorded rollback target"
  settle_first v again success = health_step v again
  settle_first v again _ = again none

  unfoldable pub verify_round :
      Verification → (Option String → M DeploymentRecord) → M DeploymentRecord
  verify_round v again = do
    on_result (inspect env v)
        (λ current. (do
          decision ← classify_rollback_convergence v current
          settle_first v again decision))
        (λ e. again (some (error_message e)))

  unfoldable pub verification_timed_out : Verification → Option String → M DeploymentRecord
  verification_timed_out v last_error =
      if Option.get_or last_error "" == ""
      then (do
        mark_rollback_verification_pending env v.deployment_id v.operation_id
            "ROLLBACK_OBSERVATION_TIMEOUT"
            "Rollback is still converging after the synchronous observation window"
        require_deployment env v.deployment_id)
      else needs_attention v "ROLLBACK_VERIFICATION_UNAVAILABLE" (
          concat "Rollback verification timed out after Agent errors: "
            (Option.get_or last_error ""))

  unfoldable pub verify_loop :
      ℕ → Verification → (deadline : ℕ) → (last_error : Option String) → M DeploymentRecord
  verify_loop zero v deadline last_error = do
    now ← date_now
    if ltb now deadline then raise stuck else verification_timed_out v last_error
  verify_loop (suc fuel) v deadline last_error = do
    now ← date_now
    if ltb now deadline
        then verify_round v (λ e. do sleep verify_interval_ms; verify_loop fuel v deadline e)
        else verification_timed_out v last_error

  unfoldable pub verify_rollback_and_complete : Verification → M DeploymentRecord
  verify_rollback_and_complete v = do
    now ← date_now
    verify_loop rounds v (now + verify_timeout_ms) none
