-- ===== src/Examples/Nodes.antt =====
-- apps/api/src/operations/node-mutation.service.ts on the sample.
use docklane.Prelude.{
  ◌≡◌, ◌≢◌, ◌↔◌, refl, String, true, false, List, [], ◌∷◌, some, none, some_inj, subst, ◌==◌, ℕ-eq,
  if◌then◌else◌, NoRepeats, contains, String-eq,
}
use docklane.Store.{NodeOperationType, NodeOperationRecord}
use docklane.Exec
use docklane.Exec.{NodeDispatch, requests, World, Env, err, stuck, lost}
use docklane.Exec.Triple.{Outcome}
use docklane.Exec.Atomic.{durable, Closed, Thrown}
use docklane.Lock
use docklane.Dispatch
use docklane.Node.Labels
use docklane.Node.Classify
use docklane.Node.Persist
use docklane.Node.Verify
use docklane.Node.Service
use docklane.Node.Service.{Change, drain, mutate, on_application_bootstrap, recover_current}
use docklane.Node.Verify.{reconcile_locked, verify_and_complete_locked}
use docklane.Node.Persist.{NodeIntent, persist_intent}
use docklane.Node.Atomicity.{Intended, persist_node_intent-atomic}
use docklane.Node.Labels.{keys, value_of, same_labels, same_strings, sorted_unique}
use docklane.Node.Labels.Equal.{same_labels_iff}
use docklane.Node.Labels.Sets.{same_strings-sorted_unique_iff}
use docklane.Node.Classify.{NodeMutationDecision, classify_node_mutation}
use docklane.Node.Classify.Done.{Done, classify_node_mutation-success_iff}
use docklane.Node.Termination.Handlers.{mutate-fueled}
use docklane.Node.Evidence.{Evidence, Backed, is_success, verify_node-Evidence}
use docklane.Node.Safety.{node_reconcile_locked-requests}
use docklane.Safety.Traced.{quiet}
use docklane.Store.Operations
use docklane.Store.NodeOperations
use docklane.Prelude
use docklane.Examples.Sample.{
  env, world, finished, ann, drain_request, labelling, drain_plan, node_before,
}

abbrev sent_node : NodeDispatch
sent_node = record {
  operation_id = "op1";
  node_id = "n1";
  type = NodeOperationType.drain;
  expected_version = 5;
  expected_spec_hash = "old";
  target_spec_hash = "new";
  expected_service_ids = some ("web" ∷ []);
  target_labels = none;
}

-- The drain makes its one request.
drained_once :
    (drain env "c1" "n1" drain_request ann (world (finished ∷ []))).1.node_dispatched
    ≡ sent_node ∷ []
unfolding Exec.pure Exec.raise Exec.try Exec.attempt Exec.lift Exec.◌>>=◌ Exec.on_result
    Exec.throw_if Exec.date_now Exec.sleep Exec.ask Exec.dispatch_node Exec.insertion Exec.statement
    Exec.query Exec.begin_transaction Exec.commit Exec.rollback Exec.transaction
    Lock.resource_lock_key Lock.unique Lock.insert_sorted Lock.sort Lock.remove Lock.named_lock_name
    Lock.lock_names Lock.get_lock Lock.acquire_all Lock.destroy Lock.release_lock Lock.release_all
    Lock.with_resource_locks Lock.with_node_and_service_locks Dispatch.units
    Dispatch.with_mutation_operation Service.drain Service.mutate Service.mutate_locked
    Service.mutate_new Service.repeat_or Service.settle_prior Service.refuse_conflicts
    Service.refuse_service_operation Service.refuse_node_operation Service.plan_first
    Service.plan_last Service.planned Service.plan_change Service.plan_type
    Service.affected_before_lock Service.lock_service_ids Service.execute_intent
    Service.dispatch_intent Service.execute Service.send Service.verify_persisted
    Labels.sorted_unique Labels.same_strings Persist.persist_intent
    Persist.assert_plan_matches_locked_node Persist.assert_accepted_matches_plan
    Persist.assert_cluster Persist.require_operation Persist.or_disappeared
    Verify.verify_and_complete_locked Verify.verify_loop Verify.settle_round Verify.complete_type
    Verify.complete Classify.classify_node_mutation Classify.classify_type
    Operations.find_non_terminal_for_service Operations.audit NodeOperations.find_operation
    NodeOperations.find_non_terminal_for_node NodeOperations.create NodeOperations.update_rows
    NodeOperations.mark_running NodeOperations.mark_verifying NodeOperations.mark_success
    NodeOperations.find_non_terminal_affecting_service Prelude.find Prelude.keep Prelude.every
    Prelude.contains
drained_once = refl

node_reconcile_locked-requests_example :
    (requests (reconcile_locked env labelling (world [])).1 ≡ quiet)
    × (requests (verify_and_complete_locked env labelling (world [])).1 ≡ quiet)
    × (requests (on_application_bootstrap env (world [])).1 ≡ quiet)
node_reconcile_locked-requests_example = node_reconcile_locked-requests env labelling (world [])

abbrev drain_change : Change
drain_change = record { type = NodeOperationType.drain; labels = none }

-- The sample while labels are being set.
abbrev labelling_world : World
labelling_world = record (world []) {
  db = record (world []).db { node_operations = labelling ∷ [] };
}

-- The answer of the commit is lost.
abbrev faulty : Env
faulty = record env { statement_fails = λ n. if n == 4 then some (lost "lost") else none }

abbrev intent : NodeIntent
intent = record {
  operation_id = "op1";
  cluster_id = "c1";
  type = NodeOperationType.drain;
  actor_id = "ann";
  plan = drain_plan;
  before = node_before;
  label_patch = none;
}

persist_node_intent-atomic_example :
    Outcome
      (λ _. Closed faulty (world []).db (Intended intent (world []).db))
      (Thrown faulty (world []).db (Intended intent (world []).db))
      (persist_intent faulty intent (world [])).0
      (persist_intent faulty intent (world [])).1
persist_node_intent-atomic_example = persist_node_intent-atomic faulty intent (world []) refl

mutate-fueled_example :
    ((mutate env "c1" "n1" drain_request ann drain_change (world [])).0 ≢ err stuck)
    × ((recover_current env (some labelling) (world [])).0 ≢ err stuck)
mutate-fueled_example =
    mutate-fueled env "c1" "n1" drain_request ann drain_change labelling (world [])

labels_once : NoRepeats (keys node_before.node.labels)
unfolding keys
labels_once = (tt, tt)

labelled_once :
    (labels : List (String × String))
    → labelling.target_labels ≡ some labels
    → NoRepeats (keys labels)
unfolding keys
labelled_once labels e =
    subst (λ (l : List (String × String)). NoRepeats (keys l)) (some_inj e) (tt, tt)

same_labels_iff_example :
    (same_labels node_before.node.labels node_before.node.labels ≡ true)
    ↔ ((k : String) → value_of k node_before.node.labels ≡ value_of k node_before.node.labels)
same_labels_iff_example =
    same_labels_iff node_before.node.labels node_before.node.labels labels_once labels_once

classify_node_mutation-success_iff_example :
    (classify_node_mutation labelling node_before ≡ NodeMutationDecision.success)
    ↔ Done labelling node_before
classify_node_mutation-success_iff_example =
    classify_node_mutation-success_iff labelling node_before labels_once labelled_once

same_strings-sorted_unique_iff_example :
    (same_strings (sorted_unique ("b" ∷ "a" ∷ [])) (sorted_unique ("a" ∷ "b" ∷ "a" ∷ [])) ≡ true)
    ↔ ((a : String) → contains ("b" ∷ "a" ∷ []) a ≡ contains ("a" ∷ "b" ∷ "a" ∷ []) a)
same_strings-sorted_unique_iff_example =
    same_strings-sorted_unique_iff ("b" ∷ "a" ∷ []) ("a" ∷ "b" ∷ "a" ∷ [])

verifying_found :
    (r : NodeOperationRecord)
    → NodeOperations.find_operation "op9" labelling_world.db ≡ some r
    → is_success r.status ≡ false
unfolding NodeOperations.find_operation Prelude.find
verifying_found r e =
    subst (λ (x : NodeOperationRecord). is_success x.status ≡ false) (some_inj e) refl

verify_node-Evidence_example :
    Backed
      (Evidence env labelling)
      "op9"
      (requests labelling_world)
      (verify_and_complete_locked env labelling labelling_world).1.db
    × Backed
        (Evidence env labelling)
        "op9"
        (requests labelling_world)
        (durable (verify_and_complete_locked env labelling labelling_world).1)
verify_node-Evidence_example =
    verify_node-Evidence env labelling labelling_world refl verifying_found
