-- ===== src/Node/Verify.antt =====
-- apps/api/src/operations/node-mutation.service.ts: verifyAndCompleteLocked, reconcileLocked. The
-- loop runs on fuel; each round waits `verify_interval_ms`, so that `rounds` rounds are enough.
use Prim.Native.String.{◌++◌ as concat}
use docklane.Prelude.{
  ℕ, zero, suc, ◌+◌, String, List, [], ◌∷◌, Bool, true, false, ◌&&◌, Option, none, some, ◌==◌, ℕ-eq,
  String-eq, ltb, if◌then◌else◌,
}
use mathlib.Core.Option
use docklane.Agent.{NodeDetailResponse, PlacementStatus}
use docklane.Agent.Payload.{node_json, tasks_json}
use docklane.Prelude.Json.{arr, obj, end, field}
use docklane.Store.{NodeOperationType, NodeOperationRecord}
use docklane.Store.Operations
use docklane.Store.NodeOperations
use docklane.Exec.{
  on_result, error_message, stuck, M, Env, pure, raise, ◌>>=◌, ◌>>◌, date_now, sleep, ask,
  statement, transaction,
}
use docklane.Mutation.Verify.{is_verifying}
use docklane.Node.Classify.{NodeMutationDecision, classify_node_mutation}
use docklane.Node.Persist.{event_of, node_type_name, mark_needs_attention, require_operation}

abbrev pub verify_timeout_ms : ℕ
verify_timeout_ms = 30000

abbrev pub verify_interval_ms : ℕ
verify_interval_ms = 500

-- verify_timeout_ms / verify_interval_ms
abbrev pub rounds : ℕ
rounds = 60

-- `lastError ? … : …`: no error, or one with an empty message.
abbrev pub uncertain_message : Option String → String
uncertain_message last_error =
    if Option.get_or last_error "" == ""
    then "Node mutation was accepted but convergence was not confirmed"
    else concat "Node verification timed out after Agent errors: " (Option.get_or last_error "")

abbrev pub is_converged : PlacementStatus → Bool
is_converged PlacementStatus.converged = true
is_converged _ = false

module _ (env : Env) where
  unfoldable pub affected_services_converged : List String → M Bool
  affected_services_converged [] = pure true
  affected_services_converged (service_id ∷ service_ids) = do
    placement ← ask env (λ n. env.check_service_placement n service_id)
    if is_converged placement.status then affected_services_converged service_ids else pure false

  unfoldable pub complete : NodeOperationRecord → NodeDetailResponse → M Bool
  complete operation current = do
    transaction env (do
      statement env (λ _. NodeOperations.mark_success operation.id current.node.version)
      statement env (λ _. Operations.audit (
          event_of operation (concat "NODE_" (concat (node_type_name operation.type) "_SUCCEEDED"))
            (some (
              obj (
                field "node" (node_json current.node)
                  (field "remainingTasks" (arr (tasks_json current.tasks)) end)))))))
    pure true

  -- A success of LABELS waits for the services.
  unfoldable pub complete_type :
      NodeOperationType → NodeOperationRecord → NodeDetailResponse → M Bool
  complete_type NodeOperationType.labels operation current = do
    converged ← affected_services_converged operation.affected_service_ids
    if converged then complete operation current else pure false
  complete_type NodeOperationType.drain operation current = complete operation current
  complete_type NodeOperationType.activate operation current = complete operation current

  -- What the `try` does after its inspection: whether the outcome of the operation is recorded.
  unfoldable pub settle_round :
      NodeMutationDecision → NodeOperationRecord → NodeDetailResponse → M Bool
  settle_round NodeMutationDecision.pending operation current = pure false
  settle_round NodeMutationDecision.success operation current =
      complete_type operation.type operation current
  settle_round (NodeMutationDecision.external_conflict message) operation current = do
    mark_needs_attention env operation "EXTERNAL_NODE_CONFLICT" message
        (some (node_json current.node))
    pure true

  unfoldable pub give_up :
      NodeOperationRecord → Option NodeDetailResponse → Option String → M NodeOperationRecord
  give_up operation last last_error = do
    mark_needs_attention env operation "NODE_VERIFICATION_UNCERTAIN" (uncertain_message last_error)
        (Option.map (λ current. node_json current.node) last)
    require_operation env operation.id

  -- `return this.requireOperation(…)` is not awaited, so it stands outside the `try`.
  unfoldable pub verify_loop :
      ℕ
      → NodeOperationRecord
      → (deadline : ℕ) → Option NodeDetailResponse
      → Option String
      → M NodeOperationRecord
  verify_loop zero operation deadline last last_error = do
    now ← date_now
    if ltb now deadline then raise stuck else give_up operation last last_error
  verify_loop (suc fuel) operation deadline last last_error = do
    now ← date_now
    if ltb now deadline
        then (do
          on_result (ask env (λ n. env.inspect_node n operation.node_id))
              (λ current.
                on_result
                  (settle_round (classify_node_mutation operation current) operation current)
                  (λ done. if done then require_operation env operation.id else (do
                    sleep verify_interval_ms
                    verify_loop fuel operation deadline (some current) none))
                  (λ e. do
                    sleep verify_interval_ms
                    verify_loop fuel operation deadline (some current) (some (error_message e))))
              (λ e. do
                sleep verify_interval_ms
                verify_loop fuel operation deadline last (some (error_message e))))
        else give_up operation last last_error

  unfoldable pub verify_and_complete_locked : NodeOperationRecord → M NodeOperationRecord
  verify_and_complete_locked operation = do
    now ← date_now
    verify_loop rounds operation (now + verify_timeout_ms) none none

  -- The target is observed: the operation goes on to its verification.
  unfoldable pub resume_verification :
      NodeOperationRecord → NodeDetailResponse → M NodeOperationRecord
  resume_verification operation current = do
    if is_verifying operation.status
        then pure tt
        else statement env (λ _. NodeOperations.mark_verifying operation.id current.node.version)
    refreshed ← require_operation env operation.id
    verify_and_complete_locked refreshed

  unfoldable pub reconcile_observed :
      NodeOperationRecord → NodeDetailResponse → M NodeOperationRecord
  reconcile_observed operation current =
      if current.node.spec_hash == operation.target_spec_hash
      then resume_verification operation current
      else if current.node.version == operation.expected_version
          && current.node.spec_hash == operation.before_spec_hash
      then (do
        mark_needs_attention env operation "NODE_MUTATION_NOT_OBSERVED"
            "Node mutation outcome is uncertain and target state was not observed" none
        require_operation env operation.id)
      else (do
        mark_needs_attention env operation "EXTERNAL_NODE_CONFLICT"
            "Node spec changed outside the recorded Docklane mutation"
            (some (node_json current.node))
        require_operation env operation.id)

  unfoldable pub reconcile_locked : NodeOperationRecord → M NodeOperationRecord
  reconcile_locked operation = do
    on_result (ask env (λ n. env.inspect_node n operation.node_id))
        (λ current. reconcile_observed operation current)
        (λ e. (do
          mark_needs_attention env operation "NODE_RECONCILIATION_UNAVAILABLE"
              (concat "Unable to inspect node: " (error_message e)) none
          require_operation env operation.id))
