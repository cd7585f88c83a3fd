-- ===== src/Mutation/Keeps/Handlers.antt =====
-- apps/api/src/operations/mutation.service.ts: scale, restart and the recovery at start-up keep every
-- stable invariant, but for the one request that changes the cluster.
use docklane.Prelude.{String, List, [], ◌∷◌, Option, none, some, String-eq}
use docklane.Store.{OperationType, OperationRecord, NodeOperationRecord, Db}
use docklane.Exec.{
  Env, M, Failure, agent, conflict, bad_gateway, not_found, service_unavailable, duplicate_dispatch,
  error, insufficient_capacity, guarded, stuck, ◌>>=◌, Requests,
}
use docklane.Mutation.Verify.{reconcile_locked}
use docklane.Agent.{
  ServiceDetailResponse, ServiceMutationPlan, CapacityStatus, CapacityCheckRequest,
  CapacityCheckResponse,
}
use docklane.Agent.Errors.{is_deterministic_agent_rejection}
use docklane.Exec.Keeps.{
  Keeps, Keeps-bind, Keeps-pure, Keeps-raise, Keeps-if, Keeps-try, Keeps-throw_if,
}
use docklane.Exec.Keeps.Tables.{Holds, Holds-ask, Holds-query}
use docklane.Capacity.{call_agent, accept_capacity, assert_available}
use docklane.Lock.Keeps.{with_service_lock-Keeps}
use docklane.Mutation.Persist.{
  Expected, assert_idempotent, assert_cluster, assert_plan_matches_current, require_operation,
}
use docklane.Mutation.Service.{
  is_terminal, refuse_node_conflict, assert_no_node_operation_conflict, reconcile_prior,
  settle_typed, settle_prior, resolve_prior_service_operation, repeat, repeat_or,
  after_dispatch_error, planned, recover_current, recover_one, recover_typed, recover_all,
  on_application_bootstrap,
}
use docklane.Mutation.Keeps.{Stable, mark_agent_rejected-Keeps, require_operation-Keeps}
use docklane.Mutation.Keeps.Reconciling.{reconcile_locked-Keeps}

module _ (env : Env) {Q : Requests → Db → Type 0} where
  refuse_node_conflict-Keeps :
      (o : Option NodeOperationRecord) → Keeps (Holds Q) (refuse_node_conflict env o)
  unfolding refuse_node_conflict
  refuse_node_conflict-Keeps none = Keeps-pure _
  refuse_node_conflict-Keeps (some r) = Keeps-raise _

  pub assert_no_node_operation_conflict-Keeps :
      (cluster service : String)
      → Keeps (Holds Q) (assert_no_node_operation_conflict env cluster service)
  unfolding assert_no_node_operation_conflict
  assert_no_node_operation_conflict-Keeps cluster service =
      Keeps-bind _ _ (Holds-query env _) refuse_node_conflict-Keeps

  accept_capacity-Keeps :
      (s : CapacityStatus) (r : CapacityCheckResponse) → Keeps (Holds Q) (accept_capacity s r)
  unfolding accept_capacity
  accept_capacity-Keeps CapacityStatus.insufficient r = Keeps-raise _
  accept_capacity-Keeps CapacityStatus.sufficient r = Keeps-pure _
  accept_capacity-Keeps CapacityStatus.unknown r = Keeps-pure _

  pub assert_available-Keeps :
      (service : String) (input : CapacityCheckRequest)
      → Keeps (Holds Q) (assert_available env service input)
  unfolding assert_available call_agent
  assert_available-Keeps service input =
      Keeps-bind _ _ (Keeps-try _ _ (Holds-ask env _) (λ e. Keeps-raise _))
        (λ r. accept_capacity-Keeps r.status r)

  pub planned-Keeps :
      (asked : M ServiceMutationPlan) → Keeps (Holds Q) asked → Keeps (Holds Q) (planned env asked)
  unfolding planned
  planned-Keeps asked k = Keeps-try _ _ k (λ e. Keeps-raise _)

  pub assert_plan-Keeps :
      (plan : ServiceMutationPlan) (current : ServiceDetailResponse)
      → Keeps (Holds Q) (assert_plan_matches_current env plan current)
  unfolding assert_plan_matches_current
  assert_plan-Keeps plan current = Keeps-throw_if _ _

  pub assert_cluster-Keeps : (cluster : String) → Keeps (Holds Q) (assert_cluster env cluster)
  unfolding assert_cluster
  assert_cluster-Keeps cluster = Keeps-throw_if _ _

module _ (env : Env) {Q : Requests → Db → Type 0} (stable : Stable Q) where
  reconcile_prior-Keeps : (prior : OperationRecord) → Keeps (Holds Q) (reconcile_prior env prior)
  unfolding reconcile_prior
  reconcile_prior-Keeps prior =
      Keeps-bind _ _ (reconcile_locked-Keeps env stable prior) (λ r. Keeps-throw_if _ _)

  settle_typed-Keeps :
      (t : OperationType) (prior : OperationRecord) → Keeps (Holds Q) (settle_typed env t prior)
  unfolding settle_typed
  settle_typed-Keeps OperationType.deploy prior = Keeps-raise _
  settle_typed-Keeps OperationType.rollback prior = Keeps-raise _
  settle_typed-Keeps OperationType.scale prior = reconcile_prior-Keeps prior
  settle_typed-Keeps OperationType.restart prior = reconcile_prior-Keeps prior

  settle_prior-Keeps : (o : Option OperationRecord) → Keeps (Holds Q) (settle_prior env o)
  unfolding settle_prior
  settle_prior-Keeps none = Keeps-pure _
  settle_prior-Keeps (some prior) = settle_typed-Keeps prior.type prior

  pub resolve_prior-Keeps :
      (cluster service : String)
      → Keeps (Holds Q) (resolve_prior_service_operation env cluster service)
  unfolding resolve_prior_service_operation
  resolve_prior-Keeps cluster service = Keeps-bind _ _ (Holds-query env _) settle_prior-Keeps

  repeat-Keeps :
      (existing : OperationRecord) (expected : Expected)
      → Keeps (Holds Q) (repeat env existing expected)
  unfolding repeat assert_idempotent
  repeat-Keeps existing expected = Keeps-bind _ _ (Keeps-throw_if _ _) λ _.
      Keeps-if (is_terminal existing) _ _ (λ _. Keeps-pure _)
        (λ _. reconcile_locked-Keeps env stable existing)

  pub repeat_or-Keeps :
      (o : Option OperationRecord) (expected : Expected) (run : M OperationRecord)
      → Keeps (Holds Q) run
      → Keeps (Holds Q) (repeat_or env o expected run)
  unfolding repeat_or
  repeat_or-Keeps none expected run k = k
  repeat_or-Keeps (some existing) expected run k = repeat-Keeps existing expected

  reread-Keeps :
      (id : String) → Keeps (Holds Q) (require_operation env id >>= λ r. reconcile_locked env r)
  reread-Keeps id =
      Keeps-bind _ _ (require_operation-Keeps env id) (reconcile_locked-Keeps env stable)

  pub after_dispatch_error-Keeps :
      (id actor cluster service : String) (e : Failure)
      → Keeps (Holds Q) (after_dispatch_error env id actor cluster service e)
  unfolding after_dispatch_error
  after_dispatch_error-Keeps id actor cluster service (agent e) =
      Keeps-if (is_deterministic_agent_rejection env.parse_json e) _ _
        (λ _.
          Keeps-bind _ _ (mark_agent_rejected-Keeps env stable id actor cluster service e)
            (λ _. Keeps-raise _))
        (λ _. reread-Keeps id)
  after_dispatch_error-Keeps id actor cluster service (conflict m) = reread-Keeps id
  after_dispatch_error-Keeps id actor cluster service (bad_gateway m) = reread-Keeps id
  after_dispatch_error-Keeps id actor cluster service (not_found m) = reread-Keeps id
  after_dispatch_error-Keeps id actor cluster service (service_unavailable m) = reread-Keeps id
  after_dispatch_error-Keeps id actor cluster service duplicate_dispatch = reread-Keeps id
  after_dispatch_error-Keeps id actor cluster service (error m) = reread-Keeps id
  after_dispatch_error-Keeps id actor cluster service (insufficient_capacity r) = reread-Keeps id
  after_dispatch_error-Keeps id actor cluster service (guarded d m) = reread-Keeps id
  after_dispatch_error-Keeps id actor cluster service stuck = reread-Keeps id

  recover_current-Keeps : (o : Option OperationRecord) → Keeps (Holds Q) (recover_current env o)
  unfolding recover_current
  recover_current-Keeps none = Keeps-pure _
  recover_current-Keeps (some current) =
      Keeps-if (is_terminal current) _ _ (λ _. Keeps-pure _)
        λ _. Keeps-bind _ _ (reconcile_locked-Keeps env stable current) (λ _. Keeps-pure _)

  recover_one-Keeps : (r : OperationRecord) → Keeps (Holds Q) (recover_one env r)
  unfolding recover_one
  recover_one-Keeps r =
      Keeps-try _ _
        (with_service_lock-Keeps env _ _ _
          (Keeps-bind _ _ (Holds-query env _) recover_current-Keeps))
        (λ e. Keeps-pure _)

  recover_typed-Keeps :
      (t : OperationType) (r : OperationRecord) → Keeps (Holds Q) (recover_typed env t r)
  unfolding recover_typed
  recover_typed-Keeps OperationType.deploy r = Keeps-pure _
  recover_typed-Keeps OperationType.rollback r = Keeps-pure _
  recover_typed-Keeps OperationType.scale r = recover_one-Keeps r
  recover_typed-Keeps OperationType.restart r = recover_one-Keeps r

  recover_all-Keeps : (rs : List OperationRecord) → Keeps (Holds Q) (recover_all env rs)
  unfolding recover_all
  recover_all-Keeps [] = Keeps-pure _
  recover_all-Keeps (r ∷ rs) =
      Keeps-bind _ _ (recover_typed-Keeps r.type r) (λ _. recover_all-Keeps rs)

  pub on_application_bootstrap-Keeps : Keeps (Holds Q) (on_application_bootstrap env)
  unfolding on_application_bootstrap
  on_application_bootstrap-Keeps = Keeps-bind _ _ (Holds-query env _) recover_all-Keeps
