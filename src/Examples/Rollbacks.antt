-- ===== src/Examples/Rollbacks.antt =====
-- apps/api/src/deployments/deployment.service.ts on the sample: a rollback that is verified.
use docklane.Prelude
use docklane.Prelude.{◌≡◌, refl, subst, some_inj, true, false, some}
use docklane.Exec
use docklane.Health.Policy
use docklane.Health.Verifier
use docklane.Store.{DeploymentRecord, DeploymentStatus}
use docklane.Store.Operations
use docklane.Store.Deployments
use docklane.Deployment.Image
use docklane.Deployment.Classify
use docklane.Deployment.Persist
use docklane.Deployment.Verify
use docklane.Deployment.VerifyRollback
use docklane.Deployment.Evidence.RolledBack.{
  RollbackEvidence, verify_rollback_and_complete-RollbackEvidence,
}
use docklane.Examples.Sample.{env, deployment, deploying, verification}

-- The row as the verification leaves it.
abbrev restored : DeploymentRecord
restored = record deployment { status = DeploymentStatus.rolled_back; finished_at = some 1121 }

completed :
    Deployments.find_deployment "d1"
      (VerifyRollback.verify_rollback_and_complete env verification deploying).1.db
    ≡ some restored
unfolding Exec.pure Exec.raise Exec.try Exec.attempt Exec.lift Exec.◌>>=◌ Exec.on_result
    Exec.throw_if Exec.date_now Exec.sleep Exec.ask Exec.insertion Exec.statement Exec.query
    Exec.begin_transaction Exec.commit Exec.rollback Exec.transaction Policy.is_private_address
    Policy.some_private Policy.ends_with Policy.assert_public Policy.assert_allowed
    Verifier.or_invalid_url Verifier.redirect_target Verifier.safe_fetch Verifier.probe
    Verifier.verify_loop Verifier.verify Prelude.contains Prelude.to_lower Prelude.starts_with
    Prelude.lower Prelude.includes Prelude.find Prelude.keep Prelude.every Operations.find_operation
    Operations.update_rows Operations.mark_success Operations.audit Deployments.find_deployment
    Deployments.update_deployments Deployments.mark_rolled_back Image.image_contains_digest
    Classify.classify_rollback_snapshot Classify.tasks_match Classify.distinct Persist.or_throw
    Persist.require_deployment Persist.record_state Persist.persist_rolled_back
    Verify.placement_decision Verify.with_placement Verify.inspect
    VerifyRollback.classify_rollback_convergence VerifyRollback.pass_rollback
    VerifyRollback.rollback_guard VerifyRollback.settle_final VerifyRollback.final_step
    VerifyRollback.health_step VerifyRollback.settle_first VerifyRollback.verify_round
    VerifyRollback.verify_loop VerifyRollback.verify_rollback_and_complete
completed = refl

deploying_found :
    (old : DeploymentRecord)
    → Deployments.find_deployment "d1" deploying.db ≡ some old
    → Deployments.is_rolled_back old.status ≡ false
unfolding Deployments.find_deployment Prelude.find
deploying_found old e = subst (λ d. Deployments.is_rolled_back d.status ≡ false) (some_inj e) refl

verify_rollback_and_complete-RollbackEvidence_example : RollbackEvidence env verification
verify_rollback_and_complete-RollbackEvidence_example =
    verify_rollback_and_complete-RollbackEvidence env verification deploying restored refl
      deploying_found completed refl
