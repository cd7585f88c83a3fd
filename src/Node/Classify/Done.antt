-- ===== src/Node/Classify/Done.antt =====
-- apps/api/src/operations/node-mutation-verification.ts: an independent description of the
-- inspections that confirm a mutation of a node.
use docklane.Prelude.{
  ◌≡◌, ◌↔◌, refl, true, String, List, [], ◌∷◌, Option, none, some, ◌==◌, ℕ-eq, String-eq, NoRepeats,
  keep, length, All, arith, eq_iff, some_inj, ap, sym, ◌∙◌,
}
use docklane.Agent.{NodeDetailResponse, TaskSummary}
use docklane.Store.{NodeOperationType, NodeOperationRecord}
use docklane.Mutation.Classify.Converged.{IsFresh, is_stale_iff}
use docklane.Node.Labels.{keys, value_of}
use docklane.Node.Labels.Equal.{same_labels_iff}
use docklane.Node.Classify.{
  success, availability_text, has_service, classify_labels, classify_type, classify_node_mutation,
}

-- The labels are those that were asked for: each key has the same value, or none.
pub record Labelled (target : Option (List (String × String))) (current : List (String × String))
    : Type 0 where
  pub labels : List (String × String)
  pub asked : target ≡ some labels
  pub same : (key : String) → value_of key current ≡ value_of key labels

-- What each type of mutation has to show: no task of a service is left, or the labels are set.
abbrev pub Shows : NodeOperationType → NodeOperationRecord → NodeDetailResponse → Type 0
Shows NodeOperationType.drain operation current = All (λ task. task.service_id ≡ "") current.tasks
Shows NodeOperationType.activate operation current = Unit
Shows NodeOperationType.labels operation current =
    Labelled operation.target_labels current.node.labels

pub record Done (operation : NodeOperationRecord) (current : NodeDetailResponse) : Type 0 where
  pub fresh : IsFresh operation.result_version current.node.version
  pub spec : current.node.spec_hash ≡ operation.target_spec_hash
  pub available : current.node.availability ≡ availability_text operation.target_availability
  pub shows : Shows operation.type operation current

no_services_iff :
    (tasks : List TaskSummary)
    → ((length (keep has_service tasks) == 0) ≡ true) ↔ All (λ task. task.service_id ≡ "") tasks
unfolding keep
no_services_iff [] = (λ h. tt, λ h. refl)
no_services_iff (t ∷ ts) =
    let none_left = eq_iff t.service_id "" in
    let rest = no_services_iff ts in
    (
      λ h. (ground (arith, none_left), rest.0 (ground (arith, none_left))),
      λ h. ground (arith, none_left.1 h.0, rest.1 h.1),
    )

classify_labels_iff :
    (target : Option (List (String × String))) (current : List (String × String))
    → NoRepeats (keys current)
    → ((labels : List (String × String)) → target ≡ some labels → NoRepeats (keys labels))
    → (classify_labels target current ≡ success) ↔ Labelled target current
unfolding classify_labels
classify_labels_iff none current once well = (λ h. cc, λ h. absurd (let e = h.asked in cc))
classify_labels_iff (some t) current once well =
    let same = same_labels_iff current t once (well t refl) in
    (
      λ h. record { labels = t; asked = refl; same = same.0 (ground arith) },
      λ h.
          let e = same.1 (λ k. h.same k ∙ ap (value_of k) (sym (some_inj h.asked))) in
          ground (arith, e),
    )

module _ (operation : NodeOperationRecord) (current : NodeDetailResponse)
    (once : NoRepeats (keys current.node.labels))
    (well : (labels : List (String × String))
      → operation.target_labels ≡ some labels
      → NoRepeats (keys labels)) where
  classify_type_iff :
      (t : NodeOperationType)
      → (classify_type t operation current ≡ success) ↔ Shows t operation current
  unfolding classify_type
  classify_type_iff NodeOperationType.drain =
      let left = no_services_iff current.tasks in
      (λ h. left.0 (ground arith), λ h. ground (arith, left.1 h))
  classify_type_iff NodeOperationType.activate = (λ h. tt, λ h. refl)
  classify_type_iff NodeOperationType.labels =
      classify_labels_iff operation.target_labels current.node.labels once well

  Done-of_success : classify_node_mutation operation current ≡ success → Done operation current
  unfolding classify_node_mutation
  Done-of_success h = record {
    fresh = (is_stale_iff operation.result_version current.node.version).0 (ground arith);
    spec = ground (arith, eq_iff current.node.spec_hash operation.target_spec_hash);
    available =
        ground (
          arith,
          eq_iff current.node.availability (availability_text operation.target_availability),
        );
    shows = (classify_type_iff operation.type).0 (ground arith);
  }

  success-of_Done : Done operation current → classify_node_mutation operation current ≡ success
  unfolding classify_node_mutation
  success-of_Done d = ground (
    arith,
    (is_stale_iff operation.result_version current.node.version).1 d.fresh,
    eq_iff current.node.spec_hash operation.target_spec_hash,
    eq_iff current.node.availability (availability_text operation.target_availability),
    d.spec,
    d.available,
    (classify_type_iff operation.type).1 d.shows,
  )

  -- Where each key of the labels stands once, in those that the node shows and in those that are
  -- recorded: an inspection is classified a success exactly if it is not before the accepted version
  -- and shows the recorded fingerprint and availability; and, for DRAIN, no task of a service, for
  -- LABELS, the recorded labels, each key with the same value or none.
  pub classify_node_mutation-success_iff :
      (classify_node_mutation operation current ≡ success) ↔ Done operation current
  classify_node_mutation-success_iff = (Done-of_success, success-of_Done)
