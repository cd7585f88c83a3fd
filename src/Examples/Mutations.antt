-- ===== src/Examples/Mutations.antt =====
-- apps/api/src/operations/mutation.service.ts on the sample.
use docklane.Prelude.{◌≡◌, ◌≢◌, ◌↔◌, refl, ◌⊎◌, [], ◌∷◌, some, none, ◌==◌, ℕ-eq, if◌then◌else◌}
use docklane.Store.{OperationType, OperationStatus, Db}
use docklane.Agent.Errors.{request}
use docklane.Store.Operations.{find_operation, service_event}
use docklane.Exec.{ok, err, stuck, World, Env, tick, lost, requests}
use docklane.Exec.Triple.{Outcome}
use docklane.Mutation.Recorded.{Recorded, mark_agent_rejected-atomic, mark_needs_attention-atomic}
use docklane.Mutation.Atomicity.{Intended, persist_intent-atomic}
use docklane.Mutation.Repeats.{SameRequest, refused, scale_locked-repeated}
use docklane.Exec.Atomic.{Closed, Thrown}
use docklane.Mutation.Classify.{classify_mutation_snapshot, MutationSnapshotDecision}
use docklane.Mutation.Classify.Converged.{classify_mutation-success_iff, Confirms}
use docklane.Exec
use docklane.Lock
use docklane.Capacity
use docklane.Dispatch
use docklane.Mutation.Service
use docklane.Mutation.Persist
use docklane.Mutation.Verify
use docklane.Mutation.Classify
use docklane.Store.Operations
use docklane.Store.NodeOperations
use docklane.Prelude
use docklane.Mutation.Verify.{success, verify, verify_and_complete_locked, reconcile_locked}
use docklane.Mutation.Service.{scale, scale_locked, on_application_bootstrap}
use docklane.Mutation.Safety.{reconcile_locked-requests}
use docklane.Mutation.Termination.{verify_and_complete_locked-fueled}
use docklane.Mutation.Verdicts.{verify-Justified, Justified}
use docklane.Examples.Sample.{
  env, world, finished, verifying, ann, scale_request, sent, after, before, plan, repeated,
}

-- The scale makes its one request.
scaled_once :
    (scale env "c1" "web" scale_request ann (world (finished ∷ []))).1.dispatched ≡ sent ∷ []
unfolding Exec.pure Exec.raise Exec.try Exec.attempt Exec.lift Exec.◌>>=◌ Exec.on_result
    Exec.throw_if Exec.date_now Exec.sleep Exec.ask Exec.dispatch Exec.insertion Exec.statement
    Exec.query Exec.begin_transaction Exec.commit Exec.rollback Exec.transaction
    Lock.resource_lock_key Lock.unique Lock.insert_sorted Lock.sort Lock.remove Lock.named_lock_name
    Lock.lock_names Lock.get_lock Lock.acquire_all Lock.destroy Lock.release_lock Lock.release_all
    Lock.with_resource_locks Lock.with_service_lock Capacity.accept_capacity Capacity.call_agent
    Capacity.assert_available Dispatch.units Dispatch.with_mutation_operation Service.scale
    Service.scale_locked Service.scale_new Service.repeat_or Service.resolve_prior_service_operation
    Service.settle_prior Service.assert_no_node_operation_conflict Service.refuse_node_conflict
    Service.planned Service.execute_intent Service.dispatch_intent Persist.persist_intent
    Persist.mark_verifying Persist.assert_plan_matches_current Persist.assert_accepted_matches_plan
    Persist.assert_cluster Persist.require_operation Persist.or_disappeared
    Verify.verify_and_complete_locked Verify.verify Verify.verify_loop Verify.settle_round
    Verify.record_outcome Classify.classify_mutation_snapshot Classify.tasks_converged
    Operations.find_operation Operations.find_non_terminal_for_service Operations.create
    Operations.update_rows Operations.mark_running Operations.mark_verifying Operations.mark_success
    Operations.audit NodeOperations.find_non_terminal_affecting_service Prelude.find Prelude.keep
    Prelude.every Prelude.contains
scaled_once = refl

reconcile_locked-requests_example :
    (requests (reconcile_locked env verifying (world (verifying ∷ []))).1 ≡ requests (world []))
    × (requests (verify_and_complete_locked env verifying (world (verifying ∷ []))).1
        ≡ requests (world []))
    × (requests (on_application_bootstrap env (world (verifying ∷ []))).1 ≡ requests (world []))
reconcile_locked-requests_example = reconcile_locked-requests env verifying (world (verifying ∷ []))

verify_and_complete_locked-fueled_example :
    (verify_and_complete_locked env verifying (world (verifying ∷ []))).0 ≢ err stuck
verify_and_complete_locked-fueled_example =
    verify_and_complete_locked-fueled env verifying (world (verifying ∷ []))

-- The verification once the service is as it was asked for.
verified : (verify env verifying (record (world []) { calls = 20 })).0 ≡ ok (success after)
unfolding Exec.pure Exec.◌>>=◌ Exec.on_result Exec.date_now Exec.ask Verify.verify
    Verify.verify_loop Verify.settle_round Classify.classify_mutation_snapshot
    Classify.tasks_converged Prelude.keep Prelude.every
verified = refl

verify-Justified_example : Justified env verifying (success after)
verify-Justified_example =
    verify-Justified env verifying (record (world []) { calls = 20 }) (success after) verified

classify_mutation-success_iff_example :
    (classify_mutation_snapshot verifying after ≡ MutationSnapshotDecision.success)
    ↔ Confirms verifying after
classify_mutation-success_iff_example = classify_mutation-success_iff verifying after

-- The answer of the commit is lost.
abbrev faulty : Env
faulty = record env { statement_fails = λ n. if n == 4 then some (lost "lost") else none }

abbrev intent : Persist.Intent
intent = record {
  operation_id = "op1";
  cluster_id = "c1";
  plan = plan;
  type = OperationType.scale;
  actor_id = "ann";
  target_replicas = some 3;
  before = before;
}

persist_intent-atomic_example :
    Outcome
      (λ _. Closed faulty (world []).db (Intended intent (world []).db))
      (Thrown faulty (world []).db (Intended intent (world []).db))
      (Persist.persist_intent faulty intent (world [])).0
      (Persist.persist_intent faulty intent (world [])).1
persist_intent-atomic_example = persist_intent-atomic faulty intent (world []) refl

-- The answer of the third statement after the first is lost: that of the commit of one update and its
-- event.
abbrev unheard : Env
unheard = record env { statement_fails = λ n. if n == 3 then some (lost "lost") else none }

verifying_found : find_operation "op1" (world (verifying ∷ [])).db ≡ some verifying
unfolding find_operation Prelude.find
verifying_found = refl

abbrev Rejected : Db → Type 0
Rejected =
    Recorded "op1"
      (record verifying {
        status = OperationStatus.failed;
        error_code = some "AGENT_VERSION_CONFLICT";
        error_message = some "";
      })
      (service_event "op1" "ann" "c1" "web" "MUTATION_REJECTED" none
        (some (Persist.rejection_json (request 409 ""))))
      (world (verifying ∷ [])).db

mark_agent_rejected-atomic_example :
    Outcome
      (λ _. Closed unheard (world (verifying ∷ [])).db Rejected)
      (Thrown unheard (world (verifying ∷ [])).db Rejected)
      (Persist.mark_agent_rejected unheard "op1" "ann" "c1" "web"
        (request 409 "")
        (world (verifying ∷ []))).0
      (Persist.mark_agent_rejected unheard "op1" "ann" "c1" "web"
        (request 409 "")
        (world (verifying ∷ []))).1
mark_agent_rejected-atomic_example =
    mark_agent_rejected-atomic unheard "op1" "ann" "c1" "web" (request 409 "")
      (world (verifying ∷ [])) verifying refl verifying_found refl

abbrev NeedsAttention : Db → Type 0
NeedsAttention =
    Recorded "op1"
      (record verifying {
        status = OperationStatus.needs_attention;
        error_code = some "CODE";
        error_message = some "message";
      })
      (service_event "op1" verifying.actor_id verifying.cluster_id verifying.service_id
        "MUTATION_NEEDS_ATTENTION" none (some (Persist.code_message "CODE" "message")))
      (world (verifying ∷ [])).db

mark_needs_attention-atomic_example :
    Outcome
      (λ _. Closed unheard (world (verifying ∷ [])).db NeedsAttention)
      (Thrown unheard (world (verifying ∷ [])).db NeedsAttention)
      (Persist.mark_needs_attention unheard verifying "CODE" "message" none
        (world (verifying ∷ []))).0
      (Persist.mark_needs_attention unheard verifying "CODE" "message" none
        (world (verifying ∷ []))).1
mark_needs_attention-atomic_example =
    mark_needs_attention-atomic unheard verifying "CODE" "message" none (world (verifying ∷ []))
      verifying refl verifying_found refl

-- The restart that has ended, asked for as a scale.
finished_found : find_operation "op0" (world (finished ∷ [])).db ≡ some finished
unfolding find_operation Prelude.find
finished_found = refl

scale_locked-repeated_example :
    (SameRequest finished "c1" "db" repeated ann
      × (scale_locked env "c1" "db" repeated ann (world (finished ∷ []))
          ≡ (ok finished, tick env (world (finished ∷ [])))))
    ⊎ (¬ SameRequest finished "c1" "db" repeated ann
        × (scale_locked env "c1" "db" repeated ann (world (finished ∷ []))
            ≡ (err refused, tick env (world (finished ∷ [])))))
scale_locked-repeated_example =
    scale_locked-repeated env "c1" "db" repeated ann (world (finished ∷ [])) finished refl
      finished_found refl
