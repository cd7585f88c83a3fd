-- ===== src/Mutation/Service.antt =====
-- apps/api/src/operations/mutation.service.ts: the requests, scale and restart, the recovery at
-- start-up, and what they check on the way.
use Prim.Native.String.{◌++◌ as concat}
use docklane.Prelude.{
  ℕ, String, List, [], ◌∷◌, Bool, true, false, not, Option, none, some, ◌==◌, ◌!=◌, ℕ-eq, String-eq,
  if◌then◌else◌, Option-eq,
}
use docklane.Agent.{ServiceMutationPlan}
use docklane.Agent.Errors.{AgentError, status_code, is_deterministic_agent_rejection, other}
use docklane.Store.{OperationType, OperationStatus, OperationRecord, NodeOperationRecord, is_final}
use docklane.Store.Operations
use docklane.Store.NodeOperations
use docklane.Exec.{
  on_result, Failure, agent, conflict, bad_gateway, not_found, M, Env, pure, raise, try, throw_if,
  ◌>>=◌, ◌>>◌, ask, dispatch, query,
}
use docklane.Capacity.{assert_available}
use docklane.Dispatch.{with_mutation_operation}
use docklane.Lock.{with_service_lock}
use docklane.Mutation.Persist.{
  Intent, Expected, persist_intent, mark_verifying, mark_agent_rejected, require_operation,
  assert_plan_matches_current, assert_accepted_matches_plan, assert_idempotent, assert_cluster,
}
use docklane.Mutation.Verify.{verify_and_complete_locked, reconcile_locked}

abbrev pub is_terminal : OperationRecord → Bool
is_terminal operation = is_final operation.status

-- The actor of the request (auth.types.ts); the role and the clusters are checked by the guard.
pub record Principal : Type 0 where
  pub actor_id : String

pub record ScaleServiceRequest : Type 0 where
  pub operation_id : String
  pub expected_version : ℕ
  pub replicas : ℕ

pub record RestartServiceRequest : Type 0 where
  pub operation_id : String
  pub expected_version : ℕ

unfoldable pub map_agent_error : AgentError → Failure
map_agent_error e =
    if status_code e == some 409
    then conflict "Agent rejected stale service state"
    else if status_code e == some 400
    then bad_gateway "Agent rejected mutation request"
    else bad_gateway "Agent mutation failed"

-- An error that is no AgentRequestError is thrown as it is.
unfoldable pub map_planning_error : Failure → Failure
map_planning_error (agent (other m)) = agent (other m)
map_planning_error (agent e) =
    if status_code e == some 409
    then conflict "Service changed before mutation planning"
    else if status_code e == some 400
    then bad_gateway "Agent rejected mutation planning"
    else bad_gateway "Agent mutation planning failed"
map_planning_error e = e

status_text : OperationStatus → String
status_text OperationStatus.pending = "PENDING"
status_text OperationStatus.running = "RUNNING"
status_text OperationStatus.verifying = "VERIFYING"
status_text OperationStatus.success = "SUCCESS"
status_text OperationStatus.failed = "FAILED"
status_text OperationStatus.needs_attention = "NEEDS_ATTENTION"

-- ` ${id} (${status})`
unfoldable pub named : String → OperationStatus → String
unfolding status_text
named id status = concat id (concat " (" (concat (status_text status) ")"))

module _ (env : Env) where
  unfoldable pub refuse_node_conflict : Option NodeOperationRecord → M (Unit {0})
  refuse_node_conflict none = pure tt
  refuse_node_conflict (some operation) = raise (
      conflict (
        concat "Service is affected by unresolved node operation "
          (named operation.id operation.status)))

  unfoldable pub assert_no_node_operation_conflict : String → String → M (Unit {0})
  assert_no_node_operation_conflict cluster_id service_id = do
    found ← query env (NodeOperations.find_non_terminal_affecting_service cluster_id service_id)
    refuse_node_conflict found

  -- What becomes of a prior operation of the service that is not terminal.
  unfoldable pub reconcile_prior : OperationRecord → M (Unit {0})
  reconcile_prior prior = do
    reconciled ← reconcile_locked env prior
    throw_if (not (is_terminal reconciled)) (
        conflict
          (concat "Service has unresolved operation " (named reconciled.id reconciled.status)))

  unfoldable pub settle_typed : OperationType → OperationRecord → M (Unit {0})
  settle_typed OperationType.deploy prior =
      raise (conflict (concat "Service has unresolved deploy " (named prior.id prior.status)))
  settle_typed OperationType.rollback prior =
      raise (conflict (concat "Service has unresolved rollback " (named prior.id prior.status)))
  settle_typed OperationType.scale prior = reconcile_prior prior
  settle_typed OperationType.restart prior = reconcile_prior prior

  unfoldable pub settle_prior : Option OperationRecord → M (Unit {0})
  settle_prior none = pure tt
  settle_prior (some prior) = settle_typed prior.type prior

  unfoldable pub resolve_prior_service_operation : String → String → M (Unit {0})
  resolve_prior_service_operation cluster_id service_id = do
    prior ← query env (Operations.find_non_terminal_for_service cluster_id service_id)
    settle_prior prior

  -- The request for an operation that exists: it must be the same request.
  unfoldable pub repeat : OperationRecord → Expected → M OperationRecord
  repeat existing expected = do
    assert_idempotent env existing expected
    if is_terminal existing then pure existing else reconcile_locked env existing

  unfoldable pub repeat_or :
      Option OperationRecord → Expected → M OperationRecord → M OperationRecord
  repeat_or none expected run = run
  repeat_or (some existing) expected run = repeat existing expected

  -- The `catch` of the dispatch: an error that counts as a rejection fails the operation, any other
  -- error leaves the outcome to reconciliation.
  unfoldable pub after_dispatch_error :
      String → String → String → String → Failure → M OperationRecord
  after_dispatch_error operation_id actor_id cluster_id service_id (agent e) =
      if is_deterministic_agent_rejection env.parse_json e
      then (do
        mark_agent_rejected env operation_id actor_id cluster_id service_id e
        raise (map_agent_error e))
      else (do operation ← require_operation env operation_id; reconcile_locked env operation)
  after_dispatch_error operation_id actor_id cluster_id service_id e = do
    operation ← require_operation env operation_id
    reconcile_locked env operation

  -- The body of the `try`: the one request that changes the cluster, a scale if it has replicas.
  unfoldable pub dispatch_intent : String → ServiceMutationPlan → String → Option ℕ → M (Unit {0})
  dispatch_intent operation_id plan service_id replicas = do
    accepted ← with_mutation_operation operation_id (
        dispatch env (record {
          operation_id = operation_id;
          service_id = service_id;
          expected_version = plan.version;
          expected_spec_hash = plan.before_spec_hash;
          target_spec_hash = plan.target_spec_hash;
          replicas = replicas;
        }))
    assert_accepted_matches_plan env accepted plan
    mark_verifying env operation_id accepted.version

  unfoldable pub execute_intent : Intent → String → M OperationRecord
  execute_intent intent service_id = do
    persist_intent env intent
    on_result (dispatch_intent intent.operation_id intent.plan service_id intent.target_replicas)
        (λ _. (do
          operation ← require_operation env intent.operation_id
          verify_and_complete_locked env operation))
        (λ e.
          after_dispatch_error intent.operation_id intent.actor_id intent.cluster_id service_id e)

  unfoldable pub planned : M ServiceMutationPlan → M ServiceMutationPlan
  planned asked = try asked (λ e. raise (map_planning_error e))

  unfoldable pub scale_new : String → String → ScaleServiceRequest → Principal → M OperationRecord
  scale_new cluster_id service_id input principal = do
    resolve_prior_service_operation cluster_id service_id
    assert_no_node_operation_conflict cluster_id service_id
    plan ←
        planned
          (ask env (λ n. env.plan_scale_service n service_id input.expected_version input.replicas))
    before ← ask env (λ n. env.inspect_service n service_id)
    assert_plan_matches_current env plan before
    assert_available env service_id (record {
      expected_version = plan.version;
      target_replicas = input.replicas;
      include_update_overlap = false;
    })
    execute_intent
        (record {
          operation_id = input.operation_id;
          cluster_id = cluster_id;
          plan = plan;
          type = OperationType.scale;
          actor_id = principal.actor_id;
          target_replicas = some input.replicas;
          before = before;
        })
        service_id

  unfoldable pub scale_locked :
      String → String → ScaleServiceRequest → Principal → M OperationRecord
  scale_locked cluster_id service_id input principal = do
    existing ← query env (Operations.find_operation input.operation_id)
    repeat_or existing
        (record {
          type = OperationType.scale;
          cluster_id = cluster_id;
          service_id = service_id;
          actor_id = principal.actor_id;
          expected_version = input.expected_version;
          target_replicas = some input.replicas;
        })
        (scale_new cluster_id service_id input principal)

  unfoldable pub scale : String → String → ScaleServiceRequest → Principal → M OperationRecord
  scale cluster_id requested_service_id input principal = do
    assert_cluster env cluster_id
    resolved ← ask env (λ n. env.inspect_service n requested_service_id)
    with_service_lock env cluster_id resolved.service.id
        (scale_locked cluster_id resolved.service.id input principal)

  unfoldable pub restart_new :
      String → String → RestartServiceRequest → Principal → M OperationRecord
  restart_new cluster_id service_id input principal = do
    resolve_prior_service_operation cluster_id service_id
    assert_no_node_operation_conflict cluster_id service_id
    plan ← planned (ask env (λ n. env.plan_restart_service n service_id input.expected_version))
    before ← ask env (λ n. env.inspect_service n service_id)
    assert_plan_matches_current env plan before
    assert_available env service_id (record {
      expected_version = plan.version;
      target_replicas = before.service.desired_replicas;
      include_update_overlap = true;
    })
    execute_intent
        (record {
          operation_id = input.operation_id;
          cluster_id = cluster_id;
          plan = plan;
          type = OperationType.restart;
          actor_id = principal.actor_id;
          target_replicas = none;
          before = before;
        })
        service_id

  unfoldable pub restart_locked :
      String → String → RestartServiceRequest → Principal → M OperationRecord
  restart_locked cluster_id service_id input principal = do
    existing ← query env (Operations.find_operation input.operation_id)
    repeat_or existing
        (record {
          type = OperationType.restart;
          cluster_id = cluster_id;
          service_id = service_id;
          actor_id = principal.actor_id;
          expected_version = input.expected_version;
          target_replicas = none;
        })
        (restart_new cluster_id service_id input principal)

  unfoldable pub restart : String → String → RestartServiceRequest → Principal → M OperationRecord
  restart cluster_id requested_service_id input principal = do
    assert_cluster env cluster_id
    resolved ← ask env (λ n. env.inspect_service n requested_service_id)
    with_service_lock env cluster_id resolved.service.id
        (restart_locked cluster_id resolved.service.id input principal)

  -- GET of one operation.
  unfoldable pub operation : String → String → M OperationRecord
  operation cluster_id operation_id = do
    assert_cluster env cluster_id
    found ← query env (Operations.find_operation operation_id)
    elim found [
      | none ↦ raise (not_found "Operation not found")
      | some r ↦
          if r.cluster_id != cluster_id then raise (not_found "Operation not found") else pure r
    ]

  -- The recovery at start-up takes the operations that are not terminal, in turn; an error is logged
  -- and ends only its own operation. The recovery lock is the service's lock.
  unfoldable pub recover_current : Option OperationRecord → M (Unit {0})
  recover_current none = pure tt
  recover_current (some current) =
      if is_terminal current then pure tt else (do reconcile_locked env current; pure tt)

  unfoldable pub recover_one : OperationRecord → M (Unit {0})
  recover_one r =
      try
        (with_service_lock env r.cluster_id r.service_id
          do current ← query env (Operations.find_operation r.id); recover_current current)
        (λ e. pure tt)

  -- operation.type !== 'SCALE' && operation.type !== 'RESTART'
  unfoldable pub recover_typed : OperationType → OperationRecord → M (Unit {0})
  recover_typed OperationType.deploy r = pure tt
  recover_typed OperationType.rollback r = pure tt
  recover_typed OperationType.scale r = recover_one r
  recover_typed OperationType.restart r = recover_one r

  unfoldable pub recover_all : List OperationRecord → M (Unit {0})
  recover_all [] = pure tt
  recover_all (r ∷ rs) = do recover_typed r.type r; recover_all rs

  unfoldable pub on_application_bootstrap : M (Unit {0})
  on_application_bootstrap = do
    pending ← query env Operations.list_non_terminal
    recover_all pending
