-- ===== src/Node/Persist.antt =====
-- apps/api/src/operations/node-mutation.service.ts: the methods that write, each in one transaction,
-- and the checks that compare what is recorded with what is asked.
use Prim.Native.String.{◌++◌ as concat}
use docklane.Prelude.{
  ℕ, String, List, Bool, true, false, ◌||◌, not, Option, none, some, ◌==◌, ◌!=◌, ℕ-eq, String-eq,
  Option-eq, if◌then◌else◌,
}
use mathlib.Core.Option
use docklane.Prelude.Json.{Json, str, arr, obj, end, field, field?, null}
use docklane.Agent.{NodeDetailResponse, NodeMutationPlan, NodeMutationResponse}
use docklane.Agent.Errors.{AgentError, pre_dispatch, status_code, response_body}
use docklane.Agent.Payload.{node_json, strings_json, label_fields}
use docklane.Store.{NodeOperationType, Availability, LabelPatch, NodeOperationRecord, AuditEvent}
use docklane.Store.Operations
use docklane.Store.NodeOperations
use docklane.Store.NodeOperations.{NewNodeOperation}
use docklane.Exec.{
  conflict, not_found, error, M, Env, pure, raise, throw_if, ◌>>=◌, ◌>>◌, statement, insertion,
  query, transaction,
}
use docklane.Mutation.Persist.{code_message, rejection_json}
use docklane.Node.Labels.{same_strings, sorted_unique, same_label_patch}
use docklane.Node.Classify.{availability_text}

abbrev pub node_type_eq : NodeOperationType → NodeOperationType → Bool
node_type_eq NodeOperationType.drain NodeOperationType.drain = true
node_type_eq NodeOperationType.activate NodeOperationType.activate = true
node_type_eq NodeOperationType.labels NodeOperationType.labels = true
node_type_eq _ _ = false

abbrev pub node_type_name : NodeOperationType → String
node_type_name NodeOperationType.drain = "DRAIN"
node_type_name NodeOperationType.activate = "ACTIVATE"
node_type_name NodeOperationType.labels = "LABELS"

abbrev pub availability_eq : Availability → Availability → Bool
availability_eq Availability.drain Availability.drain = true
availability_eq Availability.active Availability.active = true
availability_eq Availability.pause Availability.pause = true
availability_eq _ _ = false

-- An event of a node, which stands in the column of the service too.
abbrev pub node_event :
    String → String → String → String → String → Option Json → Option Json → AuditEvent
node_event operation_id actor_id cluster_id node_id action before_json after_json = record {
  operation_id = operation_id;
  actor_id = actor_id;
  cluster_id = cluster_id;
  service_id = node_id;
  resource_type = "node";
  resource_id = node_id;
  action = action;
  before_json = before_json;
  after_json = after_json;
}

abbrev pub event_of : NodeOperationRecord → String → Option Json → AuditEvent
event_of operation action after_json =
    node_event operation.id operation.actor_id operation.cluster_id operation.node_id action none
      after_json

-- The arguments of persistIntent.
pub record NodeIntent : Type 0 where
  pub operation_id : String
  pub cluster_id : String
  pub type : NodeOperationType
  pub actor_id : String
  pub plan : NodeMutationPlan
  pub before : NodeDetailResponse
  pub label_patch : Option LabelPatch

abbrev pub intent_row : NodeIntent → NewNodeOperation
intent_row input = record {
  id = input.operation_id;
  cluster_id = input.cluster_id;
  node_id = input.plan.node_id;
  type = input.type;
  actor_id = input.actor_id;
  expected_version = input.plan.version;
  before_spec_hash = input.plan.before_spec_hash;
  target_spec_hash = input.plan.target_spec_hash;
  target_availability = input.plan.target_availability;
  affected_service_ids = input.plan.affected_service_ids;
  target_labels = input.plan.target_labels;
  label_patch = input.label_patch;
}

abbrev patch_json : Option LabelPatch → Json
patch_json none = null
patch_json (some patch) = obj (
    field "set" (obj (label_fields patch.set))
      (field "remove" (arr (strings_json patch.remove)) end))

abbrev pub intent_event : NodeIntent → AuditEvent
intent_event input =
    node_event input.operation_id input.actor_id input.cluster_id input.plan.node_id
      (concat "NODE_" (concat (node_type_name input.type) "_STARTED"))
      (some (node_json input.before.node))
      (some (
        obj (
          field "targetSpecHash" (str input.plan.target_spec_hash) (
            field "targetAvailability" (str (availability_text input.plan.target_availability)) (
              field "affectedServiceIds" (arr (strings_json input.plan.affected_service_ids)) (
                field? "targetLabels"
                  (Option.map (λ labels. obj (label_fields labels)) input.plan.target_labels)
                  (field "labelPatch" (patch_json input.label_patch) end)))))))

abbrev pub plan_differs : NodeMutationPlan → NodeDetailResponse → List String → Bool
unfolding same_strings sorted_unique
plan_differs plan locked locked_services =
    plan.node_id != locked.node.id
    || plan.version != locked.node.version
    || plan.before_spec_hash != locked.node.spec_hash
    || not (same_strings (sorted_unique plan.affected_service_ids) locked_services)

abbrev pub accepted_differs : NodeMutationResponse → NodeMutationPlan → Bool
accepted_differs accepted plan =
    accepted.node_id != plan.node_id
    || accepted.target_spec_hash != plan.target_spec_hash
    || not (availability_eq accepted.target_availability plan.target_availability)

pub record NodeExpected : Type 0 where
  pub cluster_id : String
  pub node_id : String
  pub type : NodeOperationType
  pub actor_id : String
  pub expected_version : ℕ
  pub label_patch : Option LabelPatch

abbrev pub request_differs : NodeOperationRecord → NodeExpected → Bool
unfolding same_label_patch
request_differs existing expected =
    existing.cluster_id != expected.cluster_id
    || existing.node_id != expected.node_id
    || not (node_type_eq existing.type expected.type)
    || existing.actor_id != expected.actor_id
    || existing.expected_version != expected.expected_version
    || not (same_label_patch existing.label_patch expected.label_patch)

abbrev rejection_code : AgentError → String
rejection_code (pre_dispatch code) = "MAINTENANCE_DISPATCH_REJECTED"
rejection_code e =
    if status_code e == some 409 then "NODE_VERSION_CONFLICT" else "NODE_MUTATION_REJECTED"

module _ (env : Env) where
  unfoldable pub persist_intent : NodeIntent → M (Unit {0})
  persist_intent input = transaction env do
    insertion env (λ _. NodeOperations.create (intent_row input))
    statement env (λ _. NodeOperations.mark_running input.operation_id)
    statement env (λ _. Operations.audit (intent_event input))

  unfoldable pub mark_rejected : String → String → String → String → AgentError → M (Unit {0})
  mark_rejected operation_id actor_id cluster_id node_id e = transaction env do
    statement env
        (λ _. NodeOperations.mark_failed operation_id (rejection_code e) (response_body e))
    statement env (λ _. Operations.audit (
        node_event operation_id actor_id cluster_id node_id "NODE_MUTATION_REJECTED" none
          (some (rejection_json e))))

  unfoldable pub mark_needs_attention :
      NodeOperationRecord → String → String → Option Json → M (Unit {0})
  mark_needs_attention operation code message current = transaction env do
    statement env (λ _. NodeOperations.mark_needs_attention operation.id code message)
    statement env (λ _. Operations.audit (
        event_of operation "NODE_MUTATION_NEEDS_ATTENTION"
          (some (Option.get_or current (code_message code message)))))

  unfoldable pub or_disappeared : Option NodeOperationRecord → M NodeOperationRecord
  or_disappeared none = raise (error "Node operation disappeared after persistence")
  or_disappeared (some operation) = pure operation

  unfoldable pub require_operation : String → M NodeOperationRecord
  require_operation operation_id = do
    found ← query env (NodeOperations.find_operation operation_id)
    or_disappeared found

  unfoldable pub assert_plan_matches_locked_node :
      NodeMutationPlan → NodeDetailResponse → List String → M (Unit {0})
  assert_plan_matches_locked_node plan locked locked_services =
      throw_if (plan_differs plan locked locked_services)
        (conflict "Node changed between lock acquisition and mutation planning")

  unfoldable pub assert_accepted_matches_plan :
      NodeMutationResponse → NodeMutationPlan → M (Unit {0})
  assert_accepted_matches_plan accepted plan =
      throw_if (accepted_differs accepted plan)
        (conflict "Agent node mutation response does not match the recorded target")

  unfoldable pub assert_idempotent : NodeOperationRecord → NodeExpected → M (Unit {0})
  assert_idempotent existing expected =
      throw_if (request_differs existing expected)
        (conflict "operationId was already used for a different node mutation")

  unfoldable pub assert_cluster : String → M (Unit {0})
  assert_cluster cluster_id =
      throw_if (cluster_id != env.cluster_id) (not_found "Cluster not found")
