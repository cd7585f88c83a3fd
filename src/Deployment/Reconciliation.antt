-- ===== src/Deployment/Reconciliation.antt =====
-- apps/api/src/deployments/deployment.service.ts: classifyDeploymentReconciliationSnapshot, what an
-- inspection says about a deployment whose outcome is not known.
use docklane.Prelude.{some, ◌&&◌, ◌||◌, ◌==◌, ℕ-eq, String-eq, Option-eq, ltb, if◌then◌else◌}
use docklane.Agent.{ServiceDetailResponse}
use docklane.Store.{OperationRecord}

pub data ReconciliationDecision : Type 0 where
  target_observed waiting_for_mutation rollback_in_progress : ReconciliationDecision
  rollback_paused failed external_conflict : ReconciliationDecision

unfoldable pub classify_deployment_reconciliation_snapshot :
    OperationRecord → ServiceDetailResponse → ReconciliationDecision
classify_deployment_reconciliation_snapshot operation current =
    let is_target = current.service.spec_hash == operation.target_spec_hash in
    let is_before = current.service.spec_hash == operation.before_spec_hash in
    let state = current.service.update_state in
    let version = current.service.version in
    if state == some "rollback_started"
    then (if is_target || is_before
        then ReconciliationDecision.rollback_in_progress
        else ReconciliationDecision.external_conflict)
    else if state == some "rollback_paused"
    then (if is_target || is_before
        then ReconciliationDecision.rollback_paused
        else ReconciliationDecision.external_conflict)
    else if is_target
    then ReconciliationDecision.target_observed
    else if state == some "rollback_completed" || state == some "paused"
    then (if is_before
        then ReconciliationDecision.failed
        else ReconciliationDecision.external_conflict)
    else if ltb version operation.expected_version
        || version == operation.expected_version && is_before
    then ReconciliationDecision.waiting_for_mutation
    else ReconciliationDecision.external_conflict
