-- ===== src/Node/Classify.antt =====
-- apps/api/src/operations/node-mutation-verification.ts: what one inspection of the node says about
-- an accepted mutation.
pub mod Done
use docklane.Prelude.{
  ℕ, String, List, Bool, Option, none, some, ◌==◌, ◌!=◌, ℕ-eq, String-eq, keep, length,
  if◌then◌else◌,
}
use docklane.Agent.{NodeDetailResponse, TaskSummary}
use docklane.Store.{NodeOperationType, Availability, NodeOperationRecord}
use docklane.Mutation.Classify.{is_stale}
use docklane.Node.Labels.{same_labels}

pub data NodeMutationDecision : Type 0 where
  pending success : NodeMutationDecision
  external_conflict : String → NodeMutationDecision

abbrev pub availability_text : Availability → String
availability_text Availability.drain = "drain"
availability_text Availability.active = "active"
availability_text Availability.pause = "pause"

abbrev pub has_service : TaskSummary → Bool
has_service task = task.service_id != ""

unfoldable pub classify_labels :
    Option (List (String × String)) → List (String × String) → NodeMutationDecision
classify_labels none current = external_conflict "Recorded label mutation target is missing"
classify_labels (some target) current =
    if same_labels current target
    then success
    else external_conflict "Current node labels do not match the recorded target"

unfoldable pub classify_type :
    NodeOperationType → NodeOperationRecord → NodeDetailResponse → NodeMutationDecision
unfolding classify_labels keep
classify_type NodeOperationType.labels operation current =
    classify_labels operation.target_labels current.node.labels
classify_type NodeOperationType.activate operation current = success
classify_type NodeOperationType.drain operation current =
    if length (keep has_service current.tasks) == 0 then success else pending

unfoldable pub classify_node_mutation :
    NodeOperationRecord → NodeDetailResponse → NodeMutationDecision
unfolding classify_type
classify_node_mutation operation current =
    if is_stale operation.result_version current.node.version
    then pending
    else if current.node.spec_hash != operation.target_spec_hash
    then external_conflict "Current node spec no longer matches the recorded mutation target"
    else if current.node.availability != availability_text operation.target_availability
    then pending
    else classify_type operation.type operation current
