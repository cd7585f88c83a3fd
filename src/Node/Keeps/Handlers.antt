-- ===== src/Node/Keeps/Handlers.antt =====
-- apps/api/src/operations/node-mutation.service.ts: the parts of a request before its intent, and the
-- recovery at start-up, keep every stable invariant.
use docklane.Prelude.{ℕ, String, List, [], ◌∷◌, Option, none, some, String-eq}
use docklane.Store.{NodeOperationType, LabelPatch, OperationRecord, NodeOperationRecord, Db}
use docklane.Agent.{NodeDetailResponse, NodeMutationPlan}
use docklane.Agent.Errors.{is_deterministic_agent_rejection}
use docklane.Exec.{
  Env, Requests, M, Failure, agent, conflict, bad_gateway, not_found, service_unavailable,
  duplicate_dispatch, error, insufficient_capacity, guarded, stuck, ◌>>=◌,
}
use docklane.Exec.Keeps.{
  Keeps, Keeps-bind, Keeps-pure, Keeps-raise, Keeps-if, Keeps-try, Keeps-throw_if, Keeps-on_result,
}
use docklane.Exec.Keeps.Tables.{Holds, Holds-ask, Holds-query}
use docklane.Lock.{with_node_and_service_locks}
use docklane.Lock.Keeps.{with_resource_locks-Keeps}
use docklane.Traces.{Stable}
use docklane.Node.Persist.{
  NodeIntent, NodeExpected, assert_idempotent, assert_cluster, require_operation,
}
use docklane.Node.Verify.{reconcile_locked}
use docklane.Node.Service.{
  is_terminal, is_labels, Change, NodeMutationRequest, plan_labels, plan_type, plan_change, planned,
  raced, affected_before_lock, settle_prior, refuse_service_operation, refuse_node_operation,
  refuse_conflicts, plan_first, plan_last, after_dispatch_error, repeat, repeat_or, recover_current,
  recover_one, recover_all, on_application_bootstrap,
}
use docklane.Node.Keeps.Verifying.{require_operation-Keeps}
use docklane.Node.Keeps.{mark_rejected-Keeps, reconcile_locked-Keeps}

module _ (env : Env) {Q : Requests → Db → Type 0} where
  plan_labels-Keeps :
      (node_id : String) (version : ℕ) (patch : Option LabelPatch)
      → Keeps (Holds Q) (plan_labels env node_id version patch)
  unfolding plan_labels
  plan_labels-Keeps node_id version none = Keeps-raise _
  plan_labels-Keeps node_id version (some patch) = Holds-ask env _

  plan_type-Keeps :
      (t : NodeOperationType) (node_id : String) (version : ℕ) (patch : Option LabelPatch)
      → Keeps (Holds Q) (plan_type env t node_id version patch)
  unfolding plan_type
  plan_type-Keeps NodeOperationType.drain node_id version patch = Holds-ask env _
  plan_type-Keeps NodeOperationType.activate node_id version patch = Holds-ask env _
  plan_type-Keeps NodeOperationType.labels node_id version patch =
      plan_labels-Keeps node_id version patch

  plan_change-Keeps :
      (change : Change) (node_id : String) (version : ℕ)
      → Keeps (Holds Q) (plan_change env change node_id version)
  unfolding plan_change
  plan_change-Keeps change node_id version =
      plan_type-Keeps change.type node_id version change.labels

  planned-Keeps :
      (change : Change) (node_id : String) (version : ℕ)
      → Keeps (Holds Q) (planned env change node_id version)
  unfolding planned
  planned-Keeps change node_id version =
      Keeps-try _ _ (plan_change-Keeps change node_id version) (λ e. Keeps-raise _)

  raced-Keeps :
      (node_id : String) (e : Failure) (o : Option NodeOperationRecord)
      → Keeps (Holds Q) (raced env node_id e o)
  unfolding raced
  raced-Keeps node_id e none = Keeps-raise _
  raced-Keeps node_id e (some r) = Keeps-pure _

  pub affected_before_lock-Keeps :
      (change : Change) (input : NodeMutationRequest) (initial : NodeDetailResponse)
      (o : Option NodeOperationRecord)
      → Keeps (Holds Q) (affected_before_lock env change input initial o)
  unfolding affected_before_lock
  affected_before_lock-Keeps change input initial (some r) = Keeps-pure _
  affected_before_lock-Keeps change input initial none =
      Keeps-if (is_labels change.type) _ _
        (λ _.
          Keeps-on_result _ _ _ (plan_change-Keeps change initial.node.id input.expected_version)
            (λ plan. Keeps-pure _)
            (λ e. Keeps-bind _ _ (Holds-query env _) (raced-Keeps initial.node.id e)))
        (λ _. Keeps-pure _)

  refuse_service_operation-Keeps :
      (id : String) (o : Option OperationRecord)
      → Keeps (Holds Q) (refuse_service_operation env id o)
  unfolding refuse_service_operation
  refuse_service_operation-Keeps id none = Keeps-pure _
  refuse_service_operation-Keeps id (some r) = Keeps-raise _

  refuse_node_operation-Keeps :
      (id : String) (o : Option NodeOperationRecord)
      → Keeps (Holds Q) (refuse_node_operation env id o)
  unfolding refuse_node_operation
  refuse_node_operation-Keeps id none = Keeps-pure _
  refuse_node_operation-Keeps id (some r) = Keeps-raise _

  pub refuse_conflicts-Keeps :
      (cluster : String) (ids : List String) → Keeps (Holds Q) (refuse_conflicts env cluster ids)
  unfolding refuse_conflicts
  refuse_conflicts-Keeps cluster [] = Keeps-pure _
  refuse_conflicts-Keeps cluster (id ∷ ids) = Keeps-bind _ _ (Holds-query env _) λ s.
      Keeps-bind _ _ (refuse_service_operation-Keeps id s) λ _.
        Keeps-bind _ _ (Holds-query env _) λ n.
          Keeps-bind _ _ (refuse_node_operation-Keeps id n)
            (λ _. refuse_conflicts-Keeps cluster ids)

  pub plan_first-Keeps :
      (change : Change) (node_id : String) (version : ℕ)
      → Keeps (Holds Q) (plan_first env change node_id version)
  unfolding plan_first
  plan_first-Keeps change node_id version =
      Keeps-if (is_labels change.type) _ _
        (λ _. Keeps-bind _ _ (planned-Keeps change node_id version) (λ plan. Keeps-pure _))
        (λ _. Keeps-pure _)

  pub plan_last-Keeps :
      (first : Option NodeMutationPlan) (change : Change) (node_id : String) (version : ℕ)
      → Keeps (Holds Q) (plan_last env first change node_id version)
  unfolding plan_last
  plan_last-Keeps (some plan) change node_id version = Keeps-pure _
  plan_last-Keeps none change node_id version = planned-Keeps change node_id version

  pub assert_cluster-Keeps : (cluster : String) → Keeps (Holds Q) (assert_cluster env cluster)
  unfolding assert_cluster
  assert_cluster-Keeps cluster = Keeps-throw_if _ _

module _ (env : Env) {Q : Requests → Db → Type 0} (stable : Stable Q) where
  pub settle_prior-Keeps : (o : Option NodeOperationRecord) → Keeps (Holds Q) (settle_prior env o)
  unfolding settle_prior
  settle_prior-Keeps none = Keeps-pure _
  settle_prior-Keeps (some prior) =
      Keeps-bind _ _ (reconcile_locked-Keeps env stable prior) (λ r. Keeps-throw_if _ _)

  reread-Keeps :
      (id : String) → Keeps (Holds Q) (require_operation env id >>= λ r. reconcile_locked env r)
  reread-Keeps id =
      Keeps-bind _ _ (require_operation-Keeps env id) (reconcile_locked-Keeps env stable)

  pub after_dispatch_error-Keeps :
      (intent : NodeIntent) (node_id : String) (e : Failure)
      → Keeps (Holds Q) (after_dispatch_error env intent node_id e)
  unfolding after_dispatch_error
  after_dispatch_error-Keeps intent node_id (agent e) =
      Keeps-if (is_deterministic_agent_rejection env.parse_json e) _ _
        (λ _. Keeps-bind _ _ (mark_rejected-Keeps env stable _ _ _ node_id e) (λ _. Keeps-raise _))
        (λ _. reread-Keeps intent.operation_id)
  after_dispatch_error-Keeps intent node_id (conflict m) = reread-Keeps intent.operation_id
  after_dispatch_error-Keeps intent node_id (bad_gateway m) = reread-Keeps intent.operation_id
  after_dispatch_error-Keeps intent node_id (not_found m) = reread-Keeps intent.operation_id
  after_dispatch_error-Keeps intent node_id (service_unavailable m) =
      reread-Keeps intent.operation_id
  after_dispatch_error-Keeps intent node_id duplicate_dispatch = reread-Keeps intent.operation_id
  after_dispatch_error-Keeps intent node_id (error m) = reread-Keeps intent.operation_id
  after_dispatch_error-Keeps intent node_id (insufficient_capacity r) =
      reread-Keeps intent.operation_id
  after_dispatch_error-Keeps intent node_id (guarded d m) = reread-Keeps intent.operation_id
  after_dispatch_error-Keeps intent node_id stuck = reread-Keeps intent.operation_id

  repeat-Keeps :
      (existing : NodeOperationRecord) (expected : NodeExpected)
      → Keeps (Holds Q) (repeat env existing expected)
  unfolding repeat assert_idempotent
  repeat-Keeps existing expected = Keeps-bind _ _ (Keeps-throw_if _ _) λ _.
      Keeps-if (is_terminal existing) _ _ (λ _. Keeps-pure _)
        (λ _. reconcile_locked-Keeps env stable existing)

  pub repeat_or-Keeps :
      (o : Option NodeOperationRecord) (expected : NodeExpected) (run : M NodeOperationRecord)
      → Keeps (Holds Q) run
      → Keeps (Holds Q) (repeat_or env o expected run)
  unfolding repeat_or
  repeat_or-Keeps none expected run k = k
  repeat_or-Keeps (some existing) expected run k = repeat-Keeps existing expected

  recover_current-Keeps : (o : Option NodeOperationRecord) → Keeps (Holds Q) (recover_current env o)
  unfolding recover_current
  recover_current-Keeps none = Keeps-pure _
  recover_current-Keeps (some current) =
      Keeps-if (is_terminal current) _ _ (λ _. Keeps-pure _)
        λ _. Keeps-bind _ _ (reconcile_locked-Keeps env stable current) (λ _. Keeps-pure _)

  recover_one-Keeps : (r : NodeOperationRecord) → Keeps (Holds Q) (recover_one env r)
  unfolding recover_one with_node_and_service_locks
  recover_one-Keeps r =
      Keeps-try _ _
        (with_resource_locks-Keeps env _ _
          (Keeps-bind _ _ (Holds-query env _) recover_current-Keeps))
        (λ e. Keeps-pure _)

  recover_all-Keeps : (rs : List NodeOperationRecord) → Keeps (Holds Q) (recover_all env rs)
  unfolding recover_all
  recover_all-Keeps [] = Keeps-pure _
  recover_all-Keeps (r ∷ rs) = Keeps-bind _ _ (recover_one-Keeps r) (λ _. recover_all-Keeps rs)

  pub on_application_bootstrap-Keeps : Keeps (Holds Q) (on_application_bootstrap env)
  unfolding on_application_bootstrap
  on_application_bootstrap-Keeps = Keeps-bind _ _ (Holds-query env _) recover_all-Keeps
