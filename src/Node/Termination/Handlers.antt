-- ===== src/Node/Termination/Handlers.antt =====
-- apps/api/src/operations/node-mutation.service.ts: drain, activate, labels and the recovery at
-- start-up end.
use docklane.Prelude.{
  ℕ, ◌≢◌, String, List, [], ◌∷◌, Option, none, some, ◌==◌, ℕ-eq, String-eq, arith, Option-eq,
}
use docklane.Store.{NodeOperationType, LabelPatch, OperationRecord, NodeOperationRecord}
use docklane.Agent.{NodeDetailResponse, NodeMutationPlan}
use docklane.Agent.Errors.{
  AgentError, request, pre_dispatch, other, is_deterministic_agent_rejection,
}
use docklane.Exec.{
  World, Env, M, Failure, agent, conflict, bad_gateway, not_found, service_unavailable,
  duplicate_dispatch, error, insufficient_capacity, guarded, stuck, err, ◌>>=◌,
}
use docklane.Exec.Ends.{
  Ends, Ends-pure, Ends-raise, Ends-if, Ends-bind, Ends-try, Ends-throw_if, Ends-on_result,
  Ends-ask, Ends-dispatch_node, Ends-query, Ends-insertion, Ends-statement, Ends-transaction,
}
use docklane.Dispatch.{with_mutation_operation, units}
use docklane.Lock.{with_node_and_service_locks}
use docklane.Lock.Ends.{with_resource_locks-Ends}
use docklane.Mutation.Service.{Principal}
use docklane.Node.Persist.{
  NodeIntent, NodeExpected, persist_intent, mark_rejected, require_operation,
  assert_plan_matches_locked_node, assert_accepted_matches_plan, assert_idempotent, assert_cluster,
}
use docklane.Node.Verify.{reconcile_locked}
use docklane.Node.Service.{
  is_terminal, is_labels, map_agent_error, map_planning_error, Change, NodeMutationRequest,
  plan_labels, plan_type, plan_change, planned, send, execute, raced, affected_before_lock,
  settle_prior, refuse_service_operation, refuse_node_operation, refuse_conflicts, plan_first,
  plan_last, after_dispatch_error, dispatch_intent, verify_persisted, execute_intent, mutate_new,
  repeat, repeat_or, mutate_locked, mutate, recover_current,
}
use docklane.Node.Termination.{
  require_operation-Ends, verify_and_complete_locked-Ends, reconcile_locked-Ends,
}

-- No error is mapped to want of fuel.
agent_error-fueled : (e : AgentError) → map_agent_error e ≢ stuck
unfolding map_agent_error
agent_error-fueled e = λ h. ground arith

planning_error-fueled : (e : Failure) → e ≢ stuck → map_planning_error e ≢ stuck
unfolding map_planning_error
planning_error-fueled (agent (request c b)) n h = ground arith
planning_error-fueled (agent (pre_dispatch c)) n h = ground arith
planning_error-fueled (agent (other m)) n h = n h
planning_error-fueled (conflict m) n h = n h
planning_error-fueled (bad_gateway m) n h = n h
planning_error-fueled (not_found m) n h = n h
planning_error-fueled (service_unavailable m) n h = n h
planning_error-fueled duplicate_dispatch n h = n h
planning_error-fueled (error m) n h = n h
planning_error-fueled (insufficient_capacity r) n h = n h
planning_error-fueled (guarded d m) n h = n h
planning_error-fueled stuck n h = n h

module _ (env : Env) {t : ℕ} where
  plan_type-Ends :
      (type : NodeOperationType) (node_id : String) (version : ℕ) (patch : Option LabelPatch)
      → Ends t (plan_type env type node_id version patch)
  unfolding plan_type plan_labels
  plan_type-Ends NodeOperationType.drain node_id version patch = Ends-ask env _
  plan_type-Ends NodeOperationType.activate node_id version patch = Ends-ask env _
  plan_type-Ends NodeOperationType.labels node_id version none = Ends-raise _ (λ e. cc)
  plan_type-Ends NodeOperationType.labels node_id version (some patch) = Ends-ask env _

  plan_change-Ends :
      (change : Change) (node_id : String) (version : ℕ)
      → Ends t (plan_change env change node_id version)
  unfolding plan_change
  plan_change-Ends change node_id version = plan_type-Ends change.type node_id version change.labels

  planned-Ends :
      (change : Change) (node_id : String) (version : ℕ)
      → Ends t (planned env change node_id version)
  unfolding planned
  planned-Ends change node_id version =
      Ends-try _ _ (plan_change-Ends change node_id version)
        (λ e n. Ends-raise _ (planning_error-fueled e n))

  raced-Ends :
      (node_id : String) (e : Failure) (o : Option NodeOperationRecord)
      → e ≢ stuck
      → Ends t (raced env node_id e o)
  unfolding raced
  raced-Ends node_id e none n = Ends-raise _ (planning_error-fueled e n)
  raced-Ends node_id e (some r) n = Ends-pure _

  affected_before_lock-Ends :
      (change : Change) (input : NodeMutationRequest) (initial : NodeDetailResponse)
      (o : Option NodeOperationRecord)
      → Ends t (affected_before_lock env change input initial o)
  unfolding affected_before_lock
  affected_before_lock-Ends change input initial (some r) = Ends-pure _
  affected_before_lock-Ends change input initial none =
      Ends-if (is_labels change.type) _ _
        (λ _.
          Ends-on_result _ _ _ (plan_change-Ends change initial.node.id input.expected_version)
            (λ plan. Ends-pure _)
            (λ e n. Ends-bind _ _ (Ends-query env _) (λ o. raced-Ends initial.node.id e o n)))
        (λ _. Ends-pure _)

  refuse_service_operation-Ends :
      (id : String) (o : Option OperationRecord) → Ends t (refuse_service_operation env id o)
  unfolding refuse_service_operation
  refuse_service_operation-Ends id none = Ends-pure _
  refuse_service_operation-Ends id (some r) = Ends-raise _ (λ e. cc)

  refuse_node_operation-Ends :
      (id : String) (o : Option NodeOperationRecord) → Ends t (refuse_node_operation env id o)
  unfolding refuse_node_operation
  refuse_node_operation-Ends id none = Ends-pure _
  refuse_node_operation-Ends id (some r) = Ends-raise _ (λ e. cc)

  refuse_conflicts-Ends :
      (cluster : String) (ids : List String) → Ends t (refuse_conflicts env cluster ids)
  unfolding refuse_conflicts
  refuse_conflicts-Ends cluster [] = Ends-pure _
  refuse_conflicts-Ends cluster (id ∷ ids) = Ends-bind _ _ (Ends-query env _) λ s.
      Ends-bind _ _ (refuse_service_operation-Ends id s) λ _. Ends-bind _ _ (Ends-query env _) λ n.
        Ends-bind _ _ (refuse_node_operation-Ends id n) (λ _. refuse_conflicts-Ends cluster ids)

  plan_first-Ends :
      (change : Change) (node_id : String) (version : ℕ)
      → Ends t (plan_first env change node_id version)
  unfolding plan_first
  plan_first-Ends change node_id version =
      Ends-if (is_labels change.type) _ _
        (λ _. Ends-bind _ _ (planned-Ends change node_id version) (λ plan. Ends-pure _))
        (λ _. Ends-pure _)

  plan_last-Ends :
      (first : Option NodeMutationPlan) (change : Change) (node_id : String) (version : ℕ)
      → Ends t (plan_last env first change node_id version)
  unfolding plan_last
  plan_last-Ends (some plan) change node_id version = Ends-pure _
  plan_last-Ends none change node_id version = planned-Ends change node_id version

  settle_prior-Ends : (o : Option NodeOperationRecord) → Ends t (settle_prior env o)
  unfolding settle_prior
  settle_prior-Ends none = Ends-pure _
  settle_prior-Ends (some prior) =
      Ends-bind _ _ (reconcile_locked-Ends env t prior) (λ r. Ends-throw_if _ _ (λ e. cc))

  reread-Ends : (id : String) → Ends t (require_operation env id >>= λ r. reconcile_locked env r)
  reread-Ends id = Ends-bind _ _ (require_operation-Ends env id) (reconcile_locked-Ends env t)

  after_dispatch_error-Ends :
      (intent : NodeIntent) (node_id : String) (e : Failure)
      → Ends t (after_dispatch_error env intent node_id e)
  unfolding after_dispatch_error mark_rejected
  after_dispatch_error-Ends intent node_id (agent e) =
      Ends-if (is_deterministic_agent_rejection env.parse_json e) _ _
        (λ _.
          Ends-bind _ _
            (Ends-transaction env _
              (Ends-bind _ _ (Ends-statement env _) (λ _. Ends-statement env _)))
            (λ _. Ends-raise _ (agent_error-fueled e)))
        (λ _. reread-Ends intent.operation_id)
  after_dispatch_error-Ends intent node_id (conflict m) = reread-Ends intent.operation_id
  after_dispatch_error-Ends intent node_id (bad_gateway m) = reread-Ends intent.operation_id
  after_dispatch_error-Ends intent node_id (not_found m) = reread-Ends intent.operation_id
  after_dispatch_error-Ends intent node_id (service_unavailable m) = reread-Ends intent.operation_id
  after_dispatch_error-Ends intent node_id duplicate_dispatch = reread-Ends intent.operation_id
  after_dispatch_error-Ends intent node_id (error m) = reread-Ends intent.operation_id
  after_dispatch_error-Ends intent node_id (insufficient_capacity r) =
      reread-Ends intent.operation_id
  after_dispatch_error-Ends intent node_id (guarded d m) = reread-Ends intent.operation_id
  after_dispatch_error-Ends intent node_id stuck = reread-Ends intent.operation_id

  send-Ends :
      (type : NodeOperationType) (target : Option (List (String × String))) (id node_id : String)
      (plan : NodeMutationPlan)
      → Ends t (send env type target id node_id plan)
  unfolding send
  send-Ends NodeOperationType.labels none id node_id plan = Ends-raise _ (λ e. cc)
  send-Ends NodeOperationType.labels (some labels) id node_id plan = Ends-dispatch_node env _
  send-Ends NodeOperationType.drain none id node_id plan = Ends-dispatch_node env _
  send-Ends NodeOperationType.drain (some labels) id node_id plan = Ends-dispatch_node env _
  send-Ends NodeOperationType.activate none id node_id plan = Ends-dispatch_node env _
  send-Ends NodeOperationType.activate (some labels) id node_id plan = Ends-dispatch_node env _

  dispatch_intent-Ends :
      (intent : NodeIntent) (node_id : String) → Ends t (dispatch_intent env intent node_id)
  unfolding dispatch_intent execute with_mutation_operation assert_accepted_matches_plan units
  dispatch_intent-Ends intent node_id =
      Ends-bind _ _
        (Ends-bind _ _ (Ends-throw_if _ _ (λ e. cc))
          (λ _. send-Ends intent.type intent.plan.target_labels _ node_id intent.plan))
        (λ accepted. Ends-bind _ _ (Ends-throw_if _ _ (λ e. cc)) (λ _. Ends-statement env _))

  verify_persisted-Ends : (id : String) → Ends t (verify_persisted env id)
  unfolding verify_persisted
  verify_persisted-Ends id =
      Ends-bind _ _ (require_operation-Ends env id) (verify_and_complete_locked-Ends env t)

  execute_intent-Ends :
      (intent : NodeIntent) (node_id : String) → Ends t (execute_intent env intent node_id)
  unfolding execute_intent persist_intent
  execute_intent-Ends intent node_id =
      Ends-bind _ _
        (Ends-transaction env _ (
          Ends-bind _ _ (Ends-insertion env _)
            λ _. Ends-bind _ _ (Ends-statement env _) (λ _. Ends-statement env _)))
        λ _.
          Ends-if (intent.plan.before_spec_hash == intent.plan.target_spec_hash) _ _
            (λ _. verify_persisted-Ends intent.operation_id)
            (λ _.
              Ends-on_result _ _ _ (dispatch_intent-Ends intent node_id)
                (λ _. verify_persisted-Ends intent.operation_id)
                (λ e n. after_dispatch_error-Ends intent node_id e))

  mutate_new-Ends :
      (cluster node_id : String) (affected : List String) (input : NodeMutationRequest)
      (principal : Principal) (change : Change)
      → Ends t (mutate_new env cluster node_id affected input principal change)
  unfolding mutate_new assert_plan_matches_locked_node
  mutate_new-Ends cluster node_id affected input principal change =
      Ends-bind _ _ (Ends-query env _) λ prior. Ends-bind _ _ (settle_prior-Ends prior) λ _.
        Ends-bind _ _ (Ends-ask env _) λ locked.
          Ends-bind _ _ (plan_first-Ends change node_id _) λ first.
            Ends-bind _ _ (Ends-throw_if _ _ (λ e. cc)) λ _.
              Ends-bind _ _ (refuse_conflicts-Ends cluster _) λ _.
                Ends-bind _ _ (plan_last-Ends first change node_id _) λ plan.
                  Ends-bind _ _ (Ends-throw_if _ _ (λ e. cc)) (λ _. execute_intent-Ends _ node_id)

  repeat_or-Ends :
      (o : Option NodeOperationRecord) (expected : NodeExpected) (run : M NodeOperationRecord)
      → Ends t run
      → Ends t (repeat_or env o expected run)
  unfolding repeat_or repeat assert_idempotent
  repeat_or-Ends none expected run k = k
  repeat_or-Ends (some existing) expected run k = Ends-bind _ _ (Ends-throw_if _ _ (λ e. cc)) λ _.
      Ends-if (is_terminal existing) _ _ (λ _. Ends-pure _)
        (λ _. reconcile_locked-Ends env t existing)

  mutate-Ends :
      (cluster node_ref : String) (input : NodeMutationRequest) (principal : Principal)
      (change : Change)
      → Ends t (mutate env cluster node_ref input principal change)
  unfolding mutate mutate_locked with_node_and_service_locks assert_cluster
  mutate-Ends cluster node_ref input principal change =
      Ends-bind _ _ (Ends-throw_if _ _ (λ e. cc)) λ _. Ends-bind _ _ (Ends-ask env _) λ initial.
        Ends-bind _ _ (Ends-query env _) λ found.
          Ends-bind _ _ (affected_before_lock-Ends change input initial found) λ known.
            Ends-bind _ _ (Ends-query env _) λ prior. with_resource_locks-Ends env _ _ (
              Ends-bind _ _ (Ends-query env _)
                λ existing. repeat_or-Ends existing _ _ (mutate_new-Ends _ _ _ _ _ _))

  recover_current-Ends : (o : Option NodeOperationRecord) → Ends t (recover_current env o)
  unfolding recover_current
  recover_current-Ends none = Ends-pure _
  recover_current-Ends (some current) =
      Ends-if (is_terminal current) _ _ (λ _. Ends-pure _)
        λ _. Ends-bind _ _ (reconcile_locked-Ends env t current) (λ _. Ends-pure _)

-- The sixty rounds of each verification are enough: whatever the agent and the server answer and
-- however long they take, no request to drain, activate or label a node runs out of fuel before the
-- deadline of thirty seconds of any verification in it, and neither does the recovery of any operation,
-- before its error would be caught.
pub mutate-fueled :
    (env : Env) (cluster node_ref : String) (input : NodeMutationRequest) (principal : Principal)
    (change : Change) (operation : NodeOperationRecord) (w : World)
    → ((mutate env cluster node_ref input principal change w).0 ≢ err stuck)
      × ((recover_current env (some operation) w).0 ≢ err stuck)
mutate-fueled env cluster node_ref input principal change operation w = (
  (mutate-Ends env {t = w.now} cluster node_ref input principal change).fueled w (omega arith),
  (recover_current-Ends env {t = w.now} (some operation)).fueled w (omega arith),
)
