-- ===== src/Mutation/Classify.antt =====
-- apps/api/src/operations/mutation-verification.ts: what one inspection of the service says about
-- an accepted mutation.
pub mod Converged
use Prim.Native.String.{◌++◌ as concat}
use docklane.Prelude.{
  ℕ, String, List, Bool, true, false, ◌&&◌, ◌||◌, not, Option, none, some, ◌==◌, ◌!=◌, ℕ-eq,
  String-eq, Option-eq, ltb, keep, every, length, if◌then◌else◌,
}
use docklane.Agent.{ServiceDetailResponse, TaskSummary}
use docklane.Store.{OperationType, OperationRecord}

pub data MutationSnapshotDecision : Type 0 where
  pending success : MutationSnapshotDecision
  failed external_conflict : String → MutationSnapshotDecision

-- operation.resultVersion !== null && version < operation.resultVersion
abbrev pub is_stale : Option ℕ → ℕ → Bool
is_stale none version = false
is_stale (some accepted) version = ltb version accepted

abbrev pub is_scale : OperationType → Bool
is_scale OperationType.scale = true
is_scale _ = false

abbrev pub is_running : TaskSummary → Bool
is_running task = task.state == "running"

-- The states of an update that end an accepted mutation.
abbrev pub is_unexpected : Option String → Bool
is_unexpected state =
    state == some "paused" || state == some "rollback_started" || state == some "rollback_completed"

abbrev or_undefined : Option String → String
or_undefined none = "undefined"
or_undefined (some s) = s

unfoldable pub tasks_converged : OperationRecord → ServiceDetailResponse → Bool
unfolding keep every
tasks_converged operation current =
    let running = keep is_running current.tasks in
    length running == current.service.desired_replicas
    && every (λ task. task.force_update == operation.target_force_update) running

abbrev pub converged_replicas : OperationRecord → ServiceDetailResponse → MutationSnapshotDecision
converged_replicas operation current =
    if is_scale operation.type
    then (if some current.service.desired_replicas == operation.target_replicas
        then success
        else pending)
    else if current.service.update_state != some "completed"
    then pending
    else if tasks_converged operation current
    then success
    else pending

unfoldable pub classify_mutation_snapshot :
    OperationRecord → ServiceDetailResponse → MutationSnapshotDecision
classify_mutation_snapshot operation current =
    if is_stale operation.result_version current.service.version
    then pending
    else if current.service.spec_hash != operation.target_spec_hash
    then external_conflict "Current service spec no longer matches the recorded mutation target"
    else if is_unexpected current.service.update_state
    then failed (concat "Unexpected update state: " (or_undefined current.service.update_state))
    else if current.service.force_update != operation.target_force_update
    then pending
    else if current.service.desired_replicas != current.service.running_replicas
    then pending
    else converged_replicas operation current
