-- ===== src/Mutation/Persist.antt =====
-- apps/api/src/operations/mutation.service.ts: the methods that write, each in one transaction, and
-- the checks that compare what is recorded with what is asked.
use Prim.Native.String.{◌++◌ as concat}
use docklane.Prelude.{
  ℕ, String, Bool, true, false, ◌||◌, not, Option, none, some, ◌==◌, ◌!=◌, ℕ-eq, String-eq,
  Option-eq, if◌then◌else◌,
}
use mathlib.Core.Option
use docklane.Prelude.Json.{Json, num, str, obj, end, field, field?}
use docklane.Agent.{ServiceDetailResponse, ServiceMutationPlan, ServiceMutationResponse}
use docklane.Agent.Errors.{AgentError, pre_dispatch, status_code, response_body}
use docklane.Agent.Payload.{service_json}
use docklane.Store.{OperationType, OperationRecord, AuditEvent}
use docklane.Store.Operations
use docklane.Store.Operations.{NewOperation, service_event}
use docklane.Exec.{
  conflict, not_found, error, M, Env, pure, raise, throw_if, ◌>>=◌, ◌>>◌, statement, insertion,
  query, transaction,
}

abbrev pub operation_type_eq : OperationType → OperationType → Bool
operation_type_eq OperationType.scale OperationType.scale = true
operation_type_eq OperationType.restart OperationType.restart = true
operation_type_eq OperationType.deploy OperationType.deploy = true
operation_type_eq OperationType.rollback OperationType.rollback = true
operation_type_eq _ _ = false

abbrev type_name : OperationType → String
type_name OperationType.scale = "SCALE"
type_name OperationType.restart = "RESTART"
type_name OperationType.deploy = "DEPLOY"
type_name OperationType.rollback = "ROLLBACK"

abbrev pub code_message : String → String → Json
code_message code message = obj (field "code" (str code) (field "message" (str message) end))

abbrev pub event_of : OperationRecord → String → Option Json → AuditEvent
event_of operation action after_json =
    service_event operation.id operation.actor_id operation.cluster_id operation.service_id action
      none after_json

pub record Intent : Type 0 where
  pub operation_id : String
  pub cluster_id : String
  pub plan : ServiceMutationPlan
  pub type : OperationType
  pub actor_id : String
  pub target_replicas : Option ℕ
  pub before : ServiceDetailResponse

abbrev pub intent_row : Intent → NewOperation
intent_row input = record {
  id = input.operation_id;
  cluster_id = input.cluster_id;
  service_id = input.plan.service_id;
  type = input.type;
  actor_id = input.actor_id;
  expected_version = input.plan.version;
  before_spec_hash = input.plan.before_spec_hash;
  target_spec_hash = input.plan.target_spec_hash;
  target_force_update = input.plan.target_force_update;
  target_replicas = input.target_replicas;
  target_image = none;
  target_task_spec_hash = none;
  target_runtime_spec_hash = none;
}

abbrev pub intent_event : Intent → AuditEvent
intent_event input =
    service_event input.operation_id input.actor_id input.cluster_id input.plan.service_id
      (concat (type_name input.type) "_STARTED") (some (service_json input.before.service))
      (some (
        obj (
          field "targetSpecHash" (str input.plan.target_spec_hash) (
            field "targetForceUpdate" (num input.plan.target_force_update)
              (field? "targetReplicas" (Option.map num input.target_replicas) end)))))

-- The comparisons that guard an accepted plan, an accepted response and a repeated request.
abbrev pub plan_differs : ServiceMutationPlan → ServiceDetailResponse → Bool
plan_differs plan current =
    current.service.id != plan.service_id
    || current.service.version != plan.version
    || current.service.spec_hash != plan.before_spec_hash

abbrev pub accepted_differs : ServiceMutationResponse → ServiceMutationPlan → Bool
accepted_differs accepted plan =
    accepted.service_id != plan.service_id
    || accepted.target_spec_hash != plan.target_spec_hash
    || accepted.target_force_update != plan.target_force_update

pub record Expected : Type 0 where
  pub type : OperationType
  pub cluster_id : String
  pub service_id : String
  pub actor_id : String
  pub expected_version : ℕ
  pub target_replicas : Option ℕ

abbrev pub request_differs : OperationRecord → Expected → Bool
request_differs existing expected =
    not (operation_type_eq existing.type expected.type)
    || existing.cluster_id != expected.cluster_id
    || existing.service_id != expected.service_id
    || existing.actor_id != expected.actor_id
    || existing.expected_version != expected.expected_version
    || existing.target_replicas != expected.target_replicas

abbrev pub rejection_code : AgentError → String
rejection_code (pre_dispatch code) = "MAINTENANCE_DISPATCH_REJECTED"
rejection_code e =
    if status_code e == some 409 then "AGENT_VERSION_CONFLICT" else "AGENT_MUTATION_REJECTED"

abbrev pub rejection_json : AgentError → Json
rejection_json e = obj (
    field? "statusCode" (Option.map num (status_code e)) (field "body" (str (response_body e)) end))

module _ (env : Env) where
  unfoldable pub persist_intent : Intent → M (Unit {0})
  persist_intent input = transaction env do
    insertion env (λ _. Operations.create (intent_row input))
    statement env (λ _. Operations.mark_running input.operation_id)
    statement env (λ _. Operations.audit (intent_event input))

  unfoldable pub mark_verifying : String → ℕ → M (Unit {0})
  mark_verifying operation_id version =
      transaction env (statement env (λ _. Operations.mark_verifying operation_id version))

  unfoldable pub mark_agent_rejected : String → String → String → String → AgentError → M (Unit {0})
  mark_agent_rejected operation_id actor_id cluster_id service_id e = transaction env do
    statement env (λ _. Operations.mark_failed operation_id (rejection_code e) (response_body e))
    statement env (λ _. Operations.audit (
        service_event operation_id actor_id cluster_id service_id "MUTATION_REJECTED" none
          (some (rejection_json e))))

  unfoldable pub mark_needs_attention :
      OperationRecord → String → String → Option Json → M (Unit {0})
  mark_needs_attention operation code message current = transaction env do
    statement env (λ _. Operations.mark_needs_attention operation.id code message)
    statement env (λ _. Operations.audit (
        event_of operation "MUTATION_NEEDS_ATTENTION"
          (some (Option.get_or current (code_message code message)))))

  unfoldable pub audit : OperationRecord → String → Option Json → M (Unit {0})
  audit operation action after_json =
      transaction env (statement env (λ _. Operations.audit (event_of operation action after_json)))

  unfoldable pub or_disappeared : Option OperationRecord → M OperationRecord
  or_disappeared none = raise (error "Operation disappeared after persistence")
  or_disappeared (some operation) = pure operation

  unfoldable pub require_operation : String → M OperationRecord
  require_operation operation_id = do
    found ← query env (Operations.find_operation operation_id)
    or_disappeared found

  unfoldable pub assert_plan_matches_current :
      ServiceMutationPlan → ServiceDetailResponse → M (Unit {0})
  assert_plan_matches_current plan current =
      throw_if (plan_differs plan current)
        (conflict "Service changed between resolution and mutation planning")

  unfoldable pub assert_accepted_matches_plan :
      ServiceMutationResponse → ServiceMutationPlan → M (Unit {0})
  assert_accepted_matches_plan accepted plan =
      throw_if (accepted_differs accepted plan)
        (conflict "Agent mutation response does not match the recorded target")

  unfoldable pub assert_idempotent : OperationRecord → Expected → M (Unit {0})
  assert_idempotent existing expected =
      throw_if (request_differs existing expected)
        (conflict "operationId was already used for a different mutation")

  unfoldable pub assert_cluster : String → M (Unit {0})
  assert_cluster cluster_id =
      throw_if (cluster_id != env.cluster_id) (not_found "Cluster not found")
