-- ===== src/Node/Termination.antt =====
-- apps/api/src/operations/node-mutation.service.ts: the verification loop ends within its rounds, and
-- with it every request and every reconciliation.
pub mod Handlers
use docklane.Prelude.{
  ℕ, zero, suc, ◌+◌, ◌*◌, ◌≤◌, ◌≢◌, ltb, ltb→lt, arith, String, List, [], ◌∷◌, Bool, Option, none,
  some, ◌==◌, ◌&&◌, ℕ-eq, String-eq,
}
use docklane.Agent.{NodeDetailResponse}
use docklane.Store.{NodeOperationType, NodeOperationRecord}
use docklane.Exec.{World, Env, M, err, stuck, error_message, ◌>>=◌}
use docklane.Exec.Ends.{
  Ends, Ends-pure, Ends-raise, Ends-if, Ends-bind, Ends-bind_date_now, Ends-bind_sleep,
  Ends-on_result, Ends-ask, Ends-query, Ends-statement, Ends-transaction,
}
use docklane.Prelude.Json.{Json}
use docklane.Mutation.Verify.{is_verifying}
use docklane.Node.Classify.{NodeMutationDecision, classify_node_mutation}
use docklane.Node.Persist.{or_disappeared, require_operation, mark_needs_attention}
use docklane.Node.Verify.{
  is_converged, affected_services_converged, complete, complete_type, settle_round, give_up,
  verify_loop, verify_and_complete_locked, resume_verification, reconcile_observed,
  reconcile_locked, verify_interval_ms, verify_timeout_ms, rounds,
}

module _ (env : Env) {t : ℕ} where
  or_disappeared-Ends : (found : Option NodeOperationRecord) → Ends t (or_disappeared env found)
  unfolding or_disappeared
  or_disappeared-Ends none = Ends-raise _ (λ e. cc)
  or_disappeared-Ends (some r) = Ends-pure r

  pub require_operation-Ends : (id : String) → Ends t (require_operation env id)
  unfolding require_operation
  require_operation-Ends id = Ends-bind _ _ (Ends-query env _) or_disappeared-Ends

  mark_needs_attention-Ends :
      (operation : NodeOperationRecord) (code message : String) (current : Option Json)
      → Ends t (mark_needs_attention env operation code message current)
  unfolding mark_needs_attention
  mark_needs_attention-Ends operation code message current =
      Ends-transaction env _ (Ends-bind _ _ (Ends-statement env _) (λ _. Ends-statement env _))

  affected_services-Ends : (ids : List String) → Ends t (affected_services_converged env ids)
  unfolding affected_services_converged
  affected_services-Ends [] = Ends-pure _
  affected_services-Ends (id ∷ ids) = Ends-bind _ _ (Ends-ask env _) λ placement.
      Ends-if (is_converged placement.status) _ _ (λ _. affected_services-Ends ids)
        (λ _. Ends-pure _)

  complete-Ends :
      (operation : NodeOperationRecord) (current : NodeDetailResponse)
      → Ends t (complete env operation current)
  unfolding complete
  complete-Ends operation current =
      Ends-bind _ _
        (Ends-transaction env _ (Ends-bind _ _ (Ends-statement env _) (λ _. Ends-statement env _)))
        (λ _. Ends-pure _)

  complete_type-Ends :
      (type : NodeOperationType) (operation : NodeOperationRecord) (current : NodeDetailResponse)
      → Ends t (complete_type env type operation current)
  unfolding complete_type
  complete_type-Ends NodeOperationType.labels operation current =
      Ends-bind _ _ (affected_services-Ends operation.affected_service_ids)
        λ converged. Ends-if converged _ _ (λ _. complete-Ends operation current) (λ _. Ends-pure _)
  complete_type-Ends NodeOperationType.drain operation current = complete-Ends operation current
  complete_type-Ends NodeOperationType.activate operation current = complete-Ends operation current

  settle_round-Ends :
      (d : NodeMutationDecision) (operation : NodeOperationRecord) (current : NodeDetailResponse)
      → Ends t (settle_round env d operation current)
  unfolding settle_round
  settle_round-Ends NodeMutationDecision.pending operation current = Ends-pure _
  settle_round-Ends NodeMutationDecision.success operation current =
      complete_type-Ends operation.type operation current
  settle_round-Ends (NodeMutationDecision.external_conflict m) operation current =
      Ends-bind _ _ (mark_needs_attention-Ends operation _ _ _) (λ _. Ends-pure _)

  attention-Ends :
      (operation : NodeOperationRecord) (code message : String) (current : Option Json)
      → Ends t (
          mark_needs_attention env operation code message current >>= λ _.
          require_operation env operation.id)
  attention-Ends operation code message current =
      Ends-bind _ _ (mark_needs_attention-Ends operation code message current)
        (λ _. require_operation-Ends operation.id)

  give_up-Ends :
      (operation : NodeOperationRecord) (last : Option NodeDetailResponse)
      (last_error : Option String)
      → Ends t (give_up env operation last last_error)
  unfolding give_up
  give_up-Ends operation last last_error = attention-Ends operation _ _ _

-- Each round that is left pays for one interval of the time that is left.
verify_loop-Ends :
    (env : Env) (fuel : ℕ) (t : ℕ) (operation : NodeOperationRecord) (deadline : ℕ)
    (last : Option NodeDetailResponse) (last_error : Option String)
    → deadline ≤ t + verify_interval_ms * fuel
    → Ends t (verify_loop env fuel operation deadline last last_error)
unfolding verify_loop
verify_loop-Ends env zero t operation deadline last last_error enough =
    Ends-bind_date_now _ λ now later.
      Ends-if (ltb now deadline) _ _
        (λ early. let h = ltb→lt now deadline early in ground (arith, h))
        (λ _. give_up-Ends env operation last last_error)
verify_loop-Ends env (suc fuel) t operation deadline last last_error enough =
    Ends-bind_date_now _ λ now later.
      let again = λ (last' : Option NodeDetailResponse) (e' : Option String).
        Ends-bind_sleep verify_interval_ms (λ _. verify_loop env fuel operation deadline last' e')
          (verify_loop-Ends env fuel (now + verify_interval_ms) operation deadline last' e'
            (omega arith)) in
      Ends-if (ltb now deadline) _ _
        (λ _.
          Ends-on_result _ _ _ (Ends-ask env _)
            (λ current.
              Ends-on_result _ _ _
                (settle_round-Ends env (classify_node_mutation operation current) operation current)
                (λ done.
                  Ends-if done _ _ (λ _. require_operation-Ends env operation.id)
                    (λ _. again (some current) none))
                (λ e n. again (some current) (some (error_message e))))
            (λ e n. again last (some (error_message e))))
        (λ _. give_up-Ends env operation last last_error)

module _ (env : Env) (t : ℕ) where
  pub verify_and_complete_locked-Ends :
      (operation : NodeOperationRecord) → Ends t (verify_and_complete_locked env operation)
  unfolding verify_and_complete_locked
  verify_and_complete_locked-Ends operation = Ends-bind_date_now _ λ now later.
      verify_loop-Ends env rounds now operation (now + verify_timeout_ms) none none (omega arith)

  resume_verification-Ends :
      (operation : NodeOperationRecord) (current : NodeDetailResponse)
      → Ends t (resume_verification env operation current)
  unfolding resume_verification
  resume_verification-Ends operation current =
      Ends-bind _ _
        (Ends-if (is_verifying operation.status) _ _ (λ _. Ends-pure _) (λ _. Ends-statement env _))
        (λ _.
          Ends-bind _ _ (require_operation-Ends env operation.id) verify_and_complete_locked-Ends)

  reconcile_observed-Ends :
      (operation : NodeOperationRecord) (current : NodeDetailResponse)
      → Ends t (reconcile_observed env operation current)
  unfolding reconcile_observed
  reconcile_observed-Ends operation current =
      Ends-if (current.node.spec_hash == operation.target_spec_hash) _ _
        (λ _. resume_verification-Ends operation current)
        λ _.
          Ends-if
            (current.node.version == operation.expected_version
              && current.node.spec_hash == operation.before_spec_hash)
            _ _ (λ _. attention-Ends env operation _ _ _) (λ _. attention-Ends env operation _ _ _)

  pub reconcile_locked-Ends :
      (operation : NodeOperationRecord) → Ends t (reconcile_locked env operation)
  unfolding reconcile_locked
  reconcile_locked-Ends operation =
      Ends-on_result _ _ _ (Ends-ask env _) (reconcile_observed-Ends operation)
        (λ e n. attention-Ends env operation _ _ _)
