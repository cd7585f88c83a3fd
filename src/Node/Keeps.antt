-- ===== src/Node/Keeps.antt =====
-- apps/api/src/operations/node-mutation.service.ts: the invariants of the tables that every write of
-- a node operation's state keeps, and those that its verification and reconciliation keep.
pub mod Verifying
pub mod Handlers
pub mod Executing
use docklane.Prelude.{
  ℕ, zero, suc, ◌≡◌, refl, String, List, [], ◌∷◌, Bool, true, false, Option, none, some, ltb, ◌==◌,
  ◌&&◌, ℕ-eq, String-eq, if◌then◌else◌,
}
use docklane.Prelude.Json.{Json}
use docklane.Agent.{NodeDetailResponse}
use docklane.Agent.Errors.{AgentError}
use docklane.Store.{OperationStatus, NodeOperationType, NodeOperationRecord, AuditEvent, Db}
use docklane.Store.Operations
use docklane.Store.NodeOperations
use docklane.Exec.{Env, Requests, M, statement, ◌>>=◌}
use docklane.Traces.{SameNodeIntent, Stable, Kept}
use docklane.Exec.Keeps.{
  Keeps, Keeps-bind, Keeps-pure, Keeps-raise, Keeps-if, Keeps-on_result, Keeps-date_now,
}
use docklane.Exec.Keeps.Tables.{
  Holds, Holds-ask, Holds-sleep, Holds-query, Holds-statement, Holds-transaction,
}
use docklane.Mutation.Verify.{is_verifying}
use docklane.Node.Keeps.Verifying.{
  Bears, attended-Keeps, require_operation-Keeps, affected_services-Keeps, attention-Keeps,
  verified-Keeps,
}
use docklane.Node.Classify.{NodeMutationDecision, classify_node_mutation}
use docklane.Node.Persist.{mark_rejected, mark_needs_attention, require_operation, or_disappeared}
use docklane.Node.Verify.{
  is_converged, affected_services_converged, complete, complete_type, settle_round, give_up,
  verify_loop, verify_and_complete_locked, resume_verification, reconcile_observed,
  reconcile_locked,
}

abbrev with_state :
    NodeOperationRecord
    → OperationStatus
    → Option ℕ
    → Option String
    → Option String
    → NodeOperationRecord
with_state r status version code message = record r {
  status = status;
  result_version = version;
  error_code = code;
  error_message = message;
}

with_state-SameNodeIntent :
    (r : NodeOperationRecord) (status : OperationStatus) (version : Option ℕ)
    (code message : Option String)
    → SameNodeIntent (with_state r status version code message) r
with_state-SameNodeIntent r status version code message = record {
  id = refl;
  node_id = refl;
  type = refl;
  expected_version = refl;
  before_spec_hash = refl;
  target_spec_hash = refl;
  target_labels = refl;
  affected_service_ids = refl;
}

module _ {Q : Requests → Db → Type 0} (stable : Stable Q) where
  pub mark_running-Kept : (id : String) → Kept Q (NodeOperations.mark_running id)
  unfolding NodeOperations.mark_running
  mark_running-Kept id = stable.node_updates id _ (λ r. with_state-SameNodeIntent r _ _ _ _)

  pub mark_verifying-Kept : (id : String) (v : ℕ) → Kept Q (NodeOperations.mark_verifying id v)
  unfolding NodeOperations.mark_verifying
  mark_verifying-Kept id v = stable.node_updates id _ (λ r. with_state-SameNodeIntent r _ _ _ _)

  pub mark_success-Kept : (id : String) (v : ℕ) → Kept Q (NodeOperations.mark_success id v)
  unfolding NodeOperations.mark_success
  mark_success-Kept id v = stable.node_updates id _ (λ r. with_state-SameNodeIntent r _ _ _ _)

  pub mark_failed-Kept :
      (id code message : String) → Kept Q (NodeOperations.mark_failed id code message)
  unfolding NodeOperations.mark_failed
  mark_failed-Kept id code message =
      stable.node_updates id _ (λ r. with_state-SameNodeIntent r _ _ _ _)

  pub mark_needs_attention-Kept :
      (id code message : String) → Kept Q (NodeOperations.mark_needs_attention id code message)
  unfolding NodeOperations.mark_needs_attention
  mark_needs_attention-Kept id code message =
      stable.node_updates id _ (λ r. with_state-SameNodeIntent r _ _ _ _)

module _ (env : Env) {Q : Requests → Db → Type 0} (stable : Stable Q) where
  pub Holds-write : (g : Db → Db) → Kept Q g → Keeps (Holds Q) (statement env (λ _. g))
  Holds-write g kept = Holds-statement env (λ _. g) (λ now l db q. kept l db q)

  -- An update of an operation with its event, in one transaction.
  Holds-recorded :
      (g : Db → Db) (event : AuditEvent)
      → Kept Q g
      → Keeps
          (Holds Q)
          (statement env (λ _. g) >>= λ _. statement env (λ _. Operations.audit event))
  Holds-recorded g event kept =
      Keeps-bind _ _ (Holds-write g kept) (λ _. Holds-write _ (stable.audits event))

  pub mark_rejected-Keeps :
      (id actor cluster node_id : String) (e : AgentError)
      → Keeps (Holds Q) (mark_rejected env id actor cluster node_id e)
  unfolding mark_rejected
  mark_rejected-Keeps id actor cluster node_id e =
      Holds-transaction env _ (Holds-recorded _ _ (mark_failed-Kept stable id _ _))

  pub Bears-of_Stable : Bears Q
  Bears-of_Stable = record {
    needs_attention = mark_needs_attention-Kept stable;
    audits = stable.audits;
  }

  pub mark_needs_attention-Keeps :
      (operation : NodeOperationRecord) (code message : String) (current : Option Json)
      → Keeps (Holds Q) (mark_needs_attention env operation code message current)
  mark_needs_attention-Keeps = attended-Keeps env Bears-of_Stable

  complete-Keeps :
      (operation : NodeOperationRecord) (current : NodeDetailResponse)
      → Keeps (Holds Q) (complete env operation current)
  unfolding complete
  complete-Keeps operation current =
      Keeps-bind _ _
        (Holds-transaction env _ (Holds-recorded _ _ (mark_success-Kept stable operation.id _)))
        (λ _. Keeps-pure _)

  complete_type-Keeps :
      (t : NodeOperationType) (operation : NodeOperationRecord) (current : NodeDetailResponse)
      → Keeps (Holds Q) (complete_type env t operation current)
  unfolding complete_type
  complete_type-Keeps NodeOperationType.labels operation current =
      Keeps-bind _ _ (affected_services-Keeps env operation.affected_service_ids) λ converged.
        Keeps-if converged _ _ (λ _. complete-Keeps operation current) (λ _. Keeps-pure _)
  complete_type-Keeps NodeOperationType.drain operation current = complete-Keeps operation current
  complete_type-Keeps NodeOperationType.activate operation current =
      complete-Keeps operation current

  settle_round-Keeps :
      (d : NodeMutationDecision) (operation : NodeOperationRecord) (current : NodeDetailResponse)
      → Keeps (Holds Q) (settle_round env d operation current)
  unfolding settle_round
  settle_round-Keeps NodeMutationDecision.pending operation current = Keeps-pure _
  settle_round-Keeps NodeMutationDecision.success operation current =
      complete_type-Keeps operation.type operation current
  settle_round-Keeps (NodeMutationDecision.external_conflict m) operation current =
      Keeps-bind _ _ (mark_needs_attention-Keeps operation _ _ _) (λ _. Keeps-pure _)

  pub verify_and_complete_locked-Keeps :
      (operation : NodeOperationRecord) → Keeps (Holds Q) (verify_and_complete_locked env operation)
  verify_and_complete_locked-Keeps operation =
      verified-Keeps env Bears-of_Stable operation (λ current _.
        settle_round-Keeps (classify_node_mutation operation current) operation current)

  resume_verification-Keeps :
      (operation : NodeOperationRecord) (current : NodeDetailResponse)
      → Keeps (Holds Q) (resume_verification env operation current)
  unfolding resume_verification
  resume_verification-Keeps operation current =
      Keeps-bind _ _
        (Keeps-if (is_verifying operation.status) _ _ (λ _. Keeps-pure _)
          (λ _. Holds-write _ (mark_verifying-Kept stable operation.id _)))
        (λ _.
          Keeps-bind _ _ (require_operation-Keeps env operation.id)
            verify_and_complete_locked-Keeps)

  reconcile_observed-Keeps :
      (operation : NodeOperationRecord) (current : NodeDetailResponse)
      → Keeps (Holds Q) (reconcile_observed env operation current)
  unfolding reconcile_observed
  reconcile_observed-Keeps operation current =
      Keeps-if (current.node.spec_hash == operation.target_spec_hash) _ _
        (λ _. resume_verification-Keeps operation current)
        λ _.
          Keeps-if
            (current.node.version == operation.expected_version
              && current.node.spec_hash == operation.before_spec_hash)
            _ _ (λ _. attention-Keeps env Bears-of_Stable operation _ _ _)
            (λ _. attention-Keeps env Bears-of_Stable operation _ _ _)

  pub reconcile_locked-Keeps :
      (operation : NodeOperationRecord) → Keeps (Holds Q) (reconcile_locked env operation)
  unfolding reconcile_locked
  reconcile_locked-Keeps operation =
      Keeps-on_result _ _ _ (Holds-ask env _) (reconcile_observed-Keeps operation)
        (λ e. attention-Keeps env Bears-of_Stable operation _ _ _)
