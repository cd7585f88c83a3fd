-- ===== src/Node/Service.antt =====
-- apps/api/src/operations/node-mutation.service.ts: the requests, drain, activate and labels, the
-- recovery at start-up, and what they check on the way.
use Prim.Native.String.{◌++◌ as concat}
use docklane.Prelude.{
  ℕ, String, List, [], ◌∷◌, ◌++◌, Bool, true, false, not, Option, none, some, ◌==◌, ◌!=◌, ℕ-eq,
  String-eq, if◌then◌else◌, Option-eq,
}
use mathlib.Core.Option
use docklane.Agent.{NodeDetailResponse, NodeMutationPlan}
use docklane.Agent.Errors.{AgentError, status_code, is_deterministic_agent_rejection, other}
use docklane.Store.{NodeOperationType, LabelPatch, OperationRecord, NodeOperationRecord, is_final}
use docklane.Store.Operations
use docklane.Store.NodeOperations
use docklane.Exec.{
  on_result, Failure, agent, conflict, bad_gateway, not_found, error, M, Env, pure, raise, try,
  throw_if, ◌>>=◌, ◌>>◌, ask, dispatch_node, named_services, query, statement,
}
use docklane.Agent.{NodeMutationResponse}
use docklane.Dispatch.{with_mutation_operation}
use docklane.Lock.{with_node_and_service_locks, sort}
use docklane.Mutation.Service.{Principal, named}
use docklane.Node.Labels.{sorted_unique, same_strings}
use docklane.Node.Persist.{
  NodeIntent, NodeExpected, persist_intent, mark_rejected, require_operation,
  assert_plan_matches_locked_node, assert_accepted_matches_plan, assert_idempotent, assert_cluster,
}
use docklane.Node.Verify.{verify_and_complete_locked, reconcile_locked}

abbrev pub is_terminal : NodeOperationRecord → Bool
is_terminal operation = is_final operation.status

pub record NodeMutationRequest : Type 0 where
  pub operation_id : String
  pub expected_version : ℕ

-- The type of a request, with the patch that only LABELS brings.
pub record Change : Type 0 where
  pub type : NodeOperationType
  pub labels : Option LabelPatch

abbrev pub is_labels : NodeOperationType → Bool
is_labels NodeOperationType.labels = true
is_labels _ = false

-- The patch as it is recorded and compared.
abbrev pub recorded_patch : Option LabelPatch → Option LabelPatch
unfolding sort
recorded_patch = Option.map (λ (patch : LabelPatch). record patch { remove = sort patch.remove })

unfoldable pub map_agent_error : AgentError → Failure
map_agent_error e =
    if status_code e == some 409
    then conflict "Agent rejected stale node state"
    else bad_gateway "Agent rejected node mutation request"

-- An error that is no AgentRequestError is thrown as it is.
unfoldable pub map_planning_error : Failure → Failure
map_planning_error (agent (other m)) = agent (other m)
map_planning_error (agent e) =
    if status_code e == some 409
    then conflict "Node changed before mutation planning"
    else bad_gateway "Agent node mutation planning failed"
map_planning_error e = e

-- existingBeforeLock?.affectedServiceIds, where it is an operation of the node.
abbrev pub affected_on : String → Option NodeOperationRecord → List String
affected_on node_id none = []
affected_on node_id (some r) = if r.node_id == node_id then r.affected_service_ids else []

abbrev pub affected_or_empty : Option NodeOperationRecord → List String
affected_or_empty none = []
affected_or_empty (some r) = r.affected_service_ids

unfoldable pub lock_service_ids :
    String → List String → Option NodeOperationRecord → Option NodeOperationRecord → List String
unfolding sorted_unique
lock_service_ids node_id initially_affected existing prior =
    sorted_unique (initially_affected ++ (affected_on node_id existing ++ affected_or_empty prior))

-- The services under the locks: those of the plan of LABELS, else those of the node's tasks.
abbrev pub services_of : Option NodeMutationPlan → NodeDetailResponse → List String
unfolding sorted_unique
services_of none locked = sorted_unique locked.service_ids
services_of (some plan) locked = sorted_unique plan.affected_service_ids

abbrev changed_message : NodeOperationType → String
changed_message NodeOperationType.labels =
    "Node label impact set changed while acquiring mutation locks; retry the operation"
changed_message _ = "Node task set changed while acquiring mutation locks; retry the operation"

module _ (env : Env) where
  unfoldable pub plan_labels : String → ℕ → Option LabelPatch → M NodeMutationPlan
  plan_labels node_id expected_version none = raise (error "Node label patch is required")
  plan_labels node_id expected_version (some patch) =
      ask env (λ n. env.plan_node_labels n node_id expected_version patch.set patch.remove)

  unfoldable pub plan_type : NodeOperationType → String → ℕ → Option LabelPatch → M NodeMutationPlan
  plan_type NodeOperationType.drain node_id expected_version labels =
      ask env (λ n. env.plan_drain_node n node_id expected_version)
  plan_type NodeOperationType.activate node_id expected_version labels =
      ask env (λ n. env.plan_activate_node n node_id expected_version)
  plan_type NodeOperationType.labels node_id expected_version labels =
      plan_labels node_id expected_version labels

  unfoldable pub plan_change : Change → String → ℕ → M NodeMutationPlan
  plan_change change node_id expected_version =
      plan_type change.type node_id expected_version change.labels

  -- `plan` under a `try` that maps its error.
  unfoldable pub planned : Change → String → ℕ → M NodeMutationPlan
  planned change node_id expected_version =
      try (plan_change change node_id expected_version) (λ e. raise (map_planning_error e))

  -- `execute`: LABELS needs the labels of its plan.
  unfoldable pub send :
      NodeOperationType
      → Option (List (String × String))
      → String
      → String
      → NodeMutationPlan
      → M NodeMutationResponse
  send NodeOperationType.labels none operation_id node_id plan =
      raise (error "Planned target labels are missing")
  send type labels operation_id node_id plan = dispatch_node env (record {
    operation_id = operation_id;
    node_id = node_id;
    type = type;
    expected_version = plan.version;
    expected_spec_hash = plan.before_spec_hash;
    target_spec_hash = plan.target_spec_hash;
    expected_service_ids = named_services type plan.affected_service_ids;
    target_labels = plan.target_labels;
  })

  unfoldable pub execute :
      NodeOperationType → String → String → NodeMutationPlan → M NodeMutationResponse
  execute type operation_id node_id plan = send type plan.target_labels operation_id node_id plan

  -- A plan that failed while the same operation was recorded by another request.
  unfoldable pub raced :
      String → Failure → Option NodeOperationRecord → M (Option NodeOperationRecord × List String)
  raced node_id e none = raise (map_planning_error e)
  raced node_id e (some r) = pure (some r, sorted_unique (affected_on node_id (some r)))

  -- What the operation is known to affect before the locks: existingBeforeLock, initiallyAffected.
  unfoldable pub affected_before_lock :
      Change
      → NodeMutationRequest
      → NodeDetailResponse
      → Option NodeOperationRecord
      → M (Option NodeOperationRecord × List String)
  affected_before_lock change input initial (some existing) = pure (
    some existing,
    if is_labels change.type
        then sorted_unique existing.affected_service_ids
        else sorted_unique initial.service_ids,
  )
  affected_before_lock change input initial none =
      if is_labels change.type
      then on_result (plan_change change initial.node.id input.expected_version)
          (λ plan. pure (none, sorted_unique plan.affected_service_ids))
          (λ e. do
            found ← query env (NodeOperations.find_operation input.operation_id)
            raced initial.node.id e found)
      else pure (none, sorted_unique initial.service_ids)

  unfoldable pub settle_prior : Option NodeOperationRecord → M (Unit {0})
  settle_prior none = pure tt
  settle_prior (some prior) = do
    reconciled ← reconcile_locked env prior
    throw_if (not (is_terminal reconciled))
        (conflict (concat "Node has unresolved operation " (named reconciled.id reconciled.status)))

  unfoldable pub refuse_service_operation : String → Option OperationRecord → M (Unit {0})
  refuse_service_operation service_id none = pure tt
  refuse_service_operation service_id (some r) =
      raise (
        conflict (concat "Service " (concat service_id (concat " has unresolved operation " r.id))))

  unfoldable pub refuse_node_operation : String → Option NodeOperationRecord → M (Unit {0})
  refuse_node_operation service_id none = pure tt
  refuse_node_operation service_id (some r) = raise (
      conflict (
        concat "Service " (
          concat service_id (
            concat " is affected by unresolved node operation "
              (concat r.id (concat " on node " r.node_id))))))

  unfoldable pub refuse_conflicts : String → List String → M (Unit {0})
  refuse_conflicts cluster_id [] = pure tt
  refuse_conflicts cluster_id (service_id ∷ service_ids) = do
    service_operation ← query env (Operations.find_non_terminal_for_service cluster_id service_id)
    refuse_service_operation service_id service_operation
    node_operation ←
        query env (NodeOperations.find_non_terminal_affecting_service cluster_id service_id)
    refuse_node_operation service_id node_operation
    refuse_conflicts cluster_id service_ids

  -- The plan that LABELS makes before its services are known, and that of the others after.
  unfoldable pub plan_first : Change → String → ℕ → M (Option NodeMutationPlan)
  plan_first change node_id expected_version =
      if is_labels change.type
      then (do plan ← planned change node_id expected_version; pure (some plan))
      else pure none

  unfoldable pub plan_last : Option NodeMutationPlan → Change → String → ℕ → M NodeMutationPlan
  plan_last (some plan) change node_id expected_version = pure plan
  plan_last none change node_id expected_version = planned change node_id expected_version

  -- The `catch` of the dispatch.
  unfoldable pub after_dispatch_error : NodeIntent → String → Failure → M NodeOperationRecord
  after_dispatch_error intent node_id (agent e) =
      if is_deterministic_agent_rejection env.parse_json e
      then (do
        mark_rejected env intent.operation_id intent.actor_id intent.cluster_id node_id e
        raise (map_agent_error e))
      else (do
        operation ← require_operation env intent.operation_id
        reconcile_locked env operation)
  after_dispatch_error intent node_id e = do
    operation ← require_operation env intent.operation_id
    reconcile_locked env operation

  -- The body of the `try`: the one request that changes the node.
  unfoldable pub dispatch_intent : NodeIntent → String → M (Unit {0})
  dispatch_intent intent node_id = do
    accepted ←
        with_mutation_operation intent.operation_id
          (execute intent.type intent.operation_id node_id intent.plan)
    assert_accepted_matches_plan env accepted intent.plan
    statement env (λ _. NodeOperations.mark_verifying intent.operation_id accepted.version)

  unfoldable pub verify_persisted : String → M NodeOperationRecord
  verify_persisted operation_id = do
    operation ← require_operation env operation_id
    verify_and_complete_locked env operation

  -- A plan that changes nothing is verified with no request.
  unfoldable pub execute_intent : NodeIntent → String → M NodeOperationRecord
  execute_intent intent node_id = do
    persist_intent env intent
    if intent.plan.before_spec_hash == intent.plan.target_spec_hash
        then verify_persisted intent.operation_id
        else on_result (dispatch_intent intent node_id) (λ _. verify_persisted intent.operation_id)
            (λ e. after_dispatch_error intent node_id e)

  unfoldable pub mutate_new :
      String
      → String
      → List String
      → NodeMutationRequest
      → Principal
      → Change
      → M NodeOperationRecord
  mutate_new cluster_id node_id initially_affected input principal change = do
    prior ← query env (NodeOperations.find_non_terminal_for_node cluster_id node_id)
    settle_prior prior
    locked ← ask env (λ n. env.inspect_node n node_id)
    first ← plan_first change node_id input.expected_version
    throw_if (not (same_strings initially_affected (services_of first locked)))
        (conflict (changed_message change.type))
    refuse_conflicts cluster_id (services_of first locked)
    plan ← plan_last first change node_id input.expected_version
    assert_plan_matches_locked_node env plan locked (services_of first locked)
    execute_intent
        (record {
          operation_id = input.operation_id;
          cluster_id = cluster_id;
          type = change.type;
          actor_id = principal.actor_id;
          plan = plan;
          before = locked;
          label_patch = recorded_patch change.labels;
        })
        node_id

  unfoldable pub repeat : NodeOperationRecord → NodeExpected → M NodeOperationRecord
  repeat existing expected = do
    assert_idempotent env existing expected
    if is_terminal existing then pure existing else reconcile_locked env existing

  unfoldable pub repeat_or :
      Option NodeOperationRecord → NodeExpected → M NodeOperationRecord → M NodeOperationRecord
  repeat_or none expected run = run
  repeat_or (some existing) expected run = repeat existing expected

  unfoldable pub mutate_locked :
      String
      → String
      → List String
      → NodeMutationRequest
      → Principal
      → Change
      → M NodeOperationRecord
  mutate_locked cluster_id node_id initially_affected input principal change = do
    existing ← query env (NodeOperations.find_operation input.operation_id)
    repeat_or existing
        (record {
          cluster_id = cluster_id;
          node_id = node_id;
          type = change.type;
          actor_id = principal.actor_id;
          expected_version = input.expected_version;
          label_patch = recorded_patch change.labels;
        })
        (mutate_new cluster_id node_id initially_affected input principal change)

  unfoldable pub mutate :
      String → String → NodeMutationRequest → Principal → Change → M NodeOperationRecord
  mutate cluster_id node_ref input principal change = do
    assert_cluster env cluster_id
    initial ← ask env (λ n. env.inspect_node n node_ref)
    found ← query env (NodeOperations.find_operation input.operation_id)
    (existing, initially_affected) ← affected_before_lock change input initial found
    prior ← query env (NodeOperations.find_non_terminal_for_node cluster_id initial.node.id)
    with_node_and_service_locks env cluster_id initial.node.id
        (lock_service_ids initial.node.id initially_affected existing prior)
        (mutate_locked cluster_id initial.node.id initially_affected input principal change)

  unfoldable pub drain : String → String → NodeMutationRequest → Principal → M NodeOperationRecord
  drain cluster_id node_ref input principal =
      mutate cluster_id node_ref input principal
        (record { type = NodeOperationType.drain; labels = none })

  unfoldable pub activate :
      String → String → NodeMutationRequest → Principal → M NodeOperationRecord
  activate cluster_id node_ref input principal =
      mutate cluster_id node_ref input principal
        (record { type = NodeOperationType.activate; labels = none })

  -- The patch is the request's `set` and `remove`.
  unfoldable pub labels :
      String → String → NodeMutationRequest → LabelPatch → Principal → M NodeOperationRecord
  labels cluster_id node_ref input patch principal =
      mutate cluster_id node_ref input principal
        (record { type = NodeOperationType.labels; labels = some patch })

  -- GET of one operation.
  unfoldable pub operation : String → String → M NodeOperationRecord
  operation cluster_id operation_id = do
    assert_cluster env cluster_id
    found ← query env (NodeOperations.find_operation operation_id)
    elim found [
      | none ↦ raise (not_found "Node operation not found")
      | some r ↦
          if r.cluster_id != cluster_id
          then raise (not_found "Node operation not found")
          else pure r
    ]

  -- The recovery at start-up, under the locks of the node and of the services it affects.
  unfoldable pub recover_current : Option NodeOperationRecord → M (Unit {0})
  recover_current none = pure tt
  recover_current (some current) =
      if is_terminal current then pure tt else (do reconcile_locked env current; pure tt)

  unfoldable pub recover_one : NodeOperationRecord → M (Unit {0})
  recover_one r =
      try
        (with_node_and_service_locks env r.cluster_id r.node_id r.affected_service_ids
          do current ← query env (NodeOperations.find_operation r.id); recover_current current)
        (λ e. pure tt)

  unfoldable pub recover_all : List NodeOperationRecord → M (Unit {0})
  recover_all [] = pure tt
  recover_all (r ∷ rs) = do recover_one r; recover_all rs

  unfoldable pub on_application_bootstrap : M (Unit {0})
  on_application_bootstrap = do
    pending ← query env NodeOperations.list_non_terminal
    recover_all pending
