-- ===== src/Deployment/Persist.antt =====
-- apps/api/src/deployments/deployment.service.ts: the methods that write the state of a deployment
-- together with that of its operation, each in one transaction.
use docklane.Prelude.{ℕ, String, Bool, true, false, Option, none, some}
use docklane.Prelude.Json.{Json}
use docklane.Agent.{ServiceDetailResponse}
use docklane.Agent.Errors.{AgentError, response_body}
use docklane.Agent.Payload.{service_json}
use docklane.Store.{OperationRecord, DeploymentKind, DeploymentRecord, Db}
use docklane.Store.Operations
use docklane.Store.Operations.{NewOperation, service_event}
use docklane.Store.Deployments
use docklane.Store.Deployments.{NewDeployment}
use docklane.Mutation.Persist.{code_message, event_of, rejection_json}
use docklane.Exec.{error, M, Env, pure, raise, ◌>>=◌, ◌>>◌, statement, query, transaction}

module _ (env : Env) where
  unfoldable pub or_throw : {A : Type 0} → String → Option A → M A
  or_throw message none = raise (error message)
  or_throw message (some a) = pure a

  -- deployments.requireWithConnection
  unfoldable pub require_deployment : String → M DeploymentRecord
  require_deployment id = do
    found ← query env (Deployments.find_deployment id)
    or_throw "Deployment disappeared after persistence" found

  unfoldable pub require_operation : String → M OperationRecord
  require_operation id = do
    found ← query env (Operations.find_operation id)
    or_throw "Deployment operation disappeared after persistence" found

  -- The shape of the methods that record how an operation stands: the operation, its deployment,
  -- and an event with the operation's own actor and service.
  unfoldable pub record_state :
      (Db → Db) → (ℕ → Db → Db) → String → String → String → Json → M (Unit {0})
  record_state on_operation on_deployment operation_id missing action after_json =
      transaction env do
        statement env (λ _. on_operation)
        statement env on_deployment
        found ← query env (Operations.find_operation operation_id)
        operation ← or_throw missing found
        statement env (λ _. Operations.audit (event_of operation action (some after_json)))

  unfoldable pub fail : String → String → String → String → M (Unit {0})
  fail deployment_id operation_id code message =
      record_state (Operations.mark_failed operation_id code message)
        (λ now. Deployments.mark_failed now deployment_id message) operation_id
        "Deployment operation disappeared" "DEPLOY_FAILED" (code_message code message)

  unfoldable pub attention : String → String → String → String → M (Unit {0})
  attention deployment_id operation_id code message =
      record_state (Operations.mark_needs_attention operation_id code message)
        (λ now. Deployments.mark_needs_attention now deployment_id message) operation_id
        "Deployment operation disappeared" "DEPLOY_NEEDS_ATTENTION" (code_message code message)

  unfoldable pub mark_verification_pending : String → String → String → String → M (Unit {0})
  mark_verification_pending deployment_id operation_id code message =
      record_state (Operations.mark_verification_pending operation_id code message)
        (λ now. Deployments.mark_verification_pending deployment_id message) operation_id
        "Deployment operation disappeared" "DEPLOY_VERIFICATION_PENDING" (code_message code message)

  unfoldable pub mark_rollback_verification_pending :
      String → String → String → String → M (Unit {0})
  mark_rollback_verification_pending deployment_id operation_id code message =
      record_state (Operations.mark_verification_pending operation_id code message)
        (λ now. Deployments.mark_rollback_verification_pending deployment_id message) operation_id
        "Rollback operation disappeared" "ROLLBACK_VERIFICATION_PENDING" (code_message code message)

  -- A failed rollback leaves its operation unresolved.
  unfoldable pub rollback_failed : String → String → String → String → M (Unit {0})
  rollback_failed deployment_id operation_id code message =
      record_state (Operations.mark_needs_attention operation_id code message)
        (λ now. Deployments.mark_rollback_failed now deployment_id message) operation_id
        "Rollback operation disappeared" "ROLLBACK_FAILED" (code_message code message)

  unfoldable pub rollback_attention : String → String → String → String → M (Unit {0})
  rollback_attention deployment_id operation_id code message =
      record_state (Operations.mark_needs_attention operation_id code message)
        (λ now. Deployments.mark_needs_attention now deployment_id message) operation_id
        "Rollback operation disappeared" "ROLLBACK_NEEDS_ATTENTION" (code_message code message)

  -- No rollback ran: the deployment is FAILED again.
  unfoldable pub rollback_rejected : String → String → AgentError → M (Unit {0})
  rollback_rejected deployment_id operation_id e =
      record_state (Operations.mark_failed operation_id "ROLLBACK_REJECTED" (response_body e))
        (λ now. Deployments.mark_failed now deployment_id (response_body e)) operation_id
        "Deployment operation disappeared after persistence" "ROLLBACK_REJECTED" (rejection_json e)

  unfoldable pub mark_verifying : String → String → ℕ → M (Unit {0})
  mark_verifying deployment_id operation_id result_version = transaction env do
    statement env (λ _. Operations.mark_verifying operation_id result_version)
    statement env (λ _. Deployments.mark_verifying deployment_id)

  unfoldable pub mark_rollback_verifying : String → String → ℕ → M (Unit {0})
  mark_rollback_verifying deployment_id operation_id result_version = transaction env do
    statement env (λ _. Operations.mark_verifying operation_id result_version)
    statement env (λ _. Deployments.mark_rollback_verifying deployment_id)

  success_action : DeploymentKind → Bool → String
  success_action DeploymentKind.historical_redeploy true = "HISTORICAL_REDEPLOY_NO_OP_SUCCEEDED"
  success_action DeploymentKind.historical_redeploy false = "HISTORICAL_REDEPLOY_SUCCEEDED"
  success_action DeploymentKind.deploy true = "DEPLOY_NO_OP_SUCCEEDED"
  success_action DeploymentKind.deploy false = "DEPLOY_SUCCEEDED"

  -- The end of verifyAndComplete.
  unfoldable pub persist_success : String → String → Bool → ServiceDetailResponse → M (Unit {0})
  unfolding success_action
  persist_success deployment_id operation_id no_op final_current = transaction env do
    statement env (λ _. Operations.mark_success operation_id final_current.service.version)
    statement env (λ now. Deployments.mark_success now deployment_id)
    found ← query env (Operations.find_operation operation_id)
    operation ← or_throw "Deployment operation disappeared" found
    persisted ← require_deployment deployment_id
    statement env (λ _. Operations.audit (
        event_of operation (success_action persisted.kind no_op)
          (some (service_json final_current.service))))

  -- The end of verifyRollbackAndComplete.
  unfoldable pub persist_rolled_back : String → String → ServiceDetailResponse → M (Unit {0})
  persist_rolled_back deployment_id operation_id final_current =
      record_state (Operations.mark_success operation_id final_current.service.version)
        (λ now. Deployments.mark_rolled_back now deployment_id) operation_id
        "Rollback operation disappeared" "ROLLBACK_SUCCEEDED" (service_json final_current.service)
